-- ===== src/Theme/Laws/Moods.antt =====
-- Changes of scheme: what a theme keeps, and when they undo each other.
use guardian_cloud.Prelude.{
  ◌≡◌, ◌⊎◌, refl, inl, inr, sym, ap, ◌∙◌, true, false, Option, none, some, String, str_eq, eq_iff,
  Bool-cases, arith,
}
use guardian_cloud.Theme.Tokens.{ColorScheme, ThemeTokens, same_scheme, ◌or_text◌}
use guardian_cloud.Theme.Schemes.{
  has, entry, atmospheres_of, plain_atmosphere, atmosphere_scheme_pair, paired_or,
  pair_atmosphere_for_scheme, defaults_of, canvas_from_atmosphere_donor, apply_scheme_to_theme,
  apply_scheme_to_theme_preserve,
}
use guardian_cloud.Theme.Provider.{opposite}

plain_atmosphere-has : (s : ColorScheme) → has (plain_atmosphere s) (atmospheres_of s) ≡ true
unfolding has
plain_atmosphere-has ColorScheme.light = refl
plain_atmosphere-has ColorScheme.dark = refl

paired_or-has :
    (s : ColorScheme) (o : Option String) → has (paired_or s o) (atmospheres_of s) ≡ true
paired_or-has s none = plain_atmosphere-has s
paired_or-has s (some p) = elim (Bool-cases (has p (atmospheres_of s))) [
  | inl e ↦ rw e e
  | inr e ↦ rw e (plain_atmosphere-has s)
]

-- The paired atmosphere is one of the scheme's.
pair_has :
    (a : String) (s : ColorScheme) → has (pair_atmosphere_for_scheme a s) (atmospheres_of s) ≡ true
unfolding pair_atmosphere_for_scheme
pair_has a s = elim (Bool-cases (has a (atmospheres_of s))) [
  | inl e ↦ rw e e
  | inr e ↦ rw e (paired_or-has s (entry a atmosphere_scheme_pair))
]

has_empty : (s : ColorScheme) → has "" (atmospheres_of s) ≡ false
unfolding has
has_empty ColorScheme.light = refl
has_empty ColorScheme.dark = refl

pair_ne_empty : (a : String) (s : ColorScheme) → str_eq (pair_atmosphere_for_scheme a s) "" ≡ false
pair_ne_empty a s = elim (Bool-cases (str_eq (pair_atmosphere_for_scheme a s) "")) [
  | inl e ↦
      let empty = (eq_iff (pair_atmosphere_for_scheme a s) "").0 e in
      cc (pair_has a s, has_empty s, ap (λ x. has x (atmospheres_of s)) empty)
  | inr e ↦ e
]

-- The accents, the fonts and the corners are all there.
abbrev pub IsFilled : ThemeTokens → Type 0
IsFilled t =
    (str_eq t.accent "" ≡ false)
    × (str_eq t.accent2 "" ≡ false)
    × (str_eq t.radius "" ≡ false)
    × (str_eq t.radius_sm "" ≡ false)
    × (str_eq t.radius_lg "" ≡ false)
    × (str_eq t.font_display "" ≡ false)
    × (str_eq t.font_body "" ≡ false)

-- the same accents, fonts, corners and pack
abbrev pub SameMood : ThemeTokens → ThemeTokens → Type 0
SameMood t u =
    (t.accent ≡ u.accent)
    × (t.accent2 ≡ u.accent2)
    × (t.radius ≡ u.radius)
    × (t.radius_sm ≡ u.radius_sm)
    × (t.radius_lg ≡ u.radius_lg)
    × (t.font_display ≡ u.font_display)
    × (t.font_body ≡ u.font_body)
    × (t.pack_id ≡ u.pack_id)

-- A change to a scheme keeps the accents, the fonts, the corners and the pack of a theme that has
-- all of them, gives the theme the scheme, and, where the scheme is another one, an atmosphere of it.
pub apply_scheme_to_theme_preserve_keeps :
    (t : ThemeTokens) (s : ColorScheme)
    → IsFilled t
    → let u = apply_scheme_to_theme_preserve t s in
      SameMood u t
      × (u.color_scheme ≡ s)
      × ((t.color_scheme ≡ s) ⊎ (has u.atmosphere_mode (atmospheres_of s) ≡ true))
unfolding apply_scheme_to_theme_preserve
apply_scheme_to_theme_preserve_keeps t s w =
    let paired = pair_has (t.atmosphere_mode or_text (defaults_of s).atmosphere_mode) s in
    ground arith

-- After a change of scheme that does not preserve, a second one gives what it gives alone.
pub apply_scheme_to_theme_last :
    (t : ThemeTokens) (s s' : ColorScheme)
    → IsFilled t
    → apply_scheme_to_theme (apply_scheme_to_theme t s) s' ≡ apply_scheme_to_theme t s'
unfolding apply_scheme_to_theme
apply_scheme_to_theme_last t s s' w = ground arith

-- The theme has no gaps, its signal is its accent, its canvas and soft signal are those of the first pack
-- with its atmosphere and scheme, and its atmosphere is the twin of its twin.
pub record IsAtHome (t : ThemeTokens) : Type 0 where
  pub filled : IsFilled t
  pub has_atmosphere : str_eq t.atmosphere_mode "" ≡ false
  pub has_alert : str_eq t.alert "" ≡ false
  pub twin :
      pair_atmosphere_for_scheme
        (pair_atmosphere_for_scheme t.atmosphere_mode (opposite t.color_scheme))
        t.color_scheme
      ≡ t.atmosphere_mode
  pub signal : t.signal ≡ t.accent
  pub canvas :
      let c = canvas_from_atmosphere_donor t.atmosphere_mode t.color_scheme t.accent in
      (c.mist ≡ t.mist)
      × (c.mist_deep ≡ t.mist_deep)
      × (c.ink ≡ t.ink)
      × (c.ink_soft ≡ t.ink_soft)
      × (c.signal_soft ≡ t.signal_soft)

-- a change to another scheme, of a theme with no gaps
flipped : ThemeTokens → ColorScheme → ThemeTokens
flipped t s =
    let atmosphere_mode = pair_atmosphere_for_scheme t.atmosphere_mode s in
    let c = canvas_from_atmosphere_donor atmosphere_mode s t.accent in
    record t {
      color_scheme = s;
      atmosphere_mode = atmosphere_mode;
      mist = c.mist;
      mist_deep = c.mist_deep;
      ink = c.ink;
      ink_soft = c.ink_soft;
      signal_soft = c.signal_soft;
      signal = t.accent;
    }

preserve-flipped :
    (t : ThemeTokens) (s : ColorScheme)
    → same_scheme t.color_scheme s ≡ false
    → IsFilled t
    → str_eq t.atmosphere_mode "" ≡ false
    → str_eq t.alert "" ≡ false
    → apply_scheme_to_theme_preserve t s ≡ flipped t s
unfolding apply_scheme_to_theme_preserve flipped
preserve-flipped t s other w a l = ground arith

other_scheme : (s : ColorScheme) → same_scheme s (opposite s) ≡ false
other_scheme ColorScheme.light = refl
other_scheme ColorScheme.dark = refl

scheme_back : (s : ColorScheme) → same_scheme (opposite s) s ≡ false
scheme_back ColorScheme.light = refl
scheme_back ColorScheme.dark = refl

-- the theme with the canvas of an atmosphere
on_atmosphere : ThemeTokens → String → ThemeTokens
on_atmosphere t a =
    let c = canvas_from_atmosphere_donor a t.color_scheme t.accent in
    record t {
      atmosphere_mode = a;
      mist = c.mist;
      mist_deep = c.mist_deep;
      ink = c.ink;
      ink_soft = c.ink_soft;
      signal_soft = c.signal_soft;
      signal = t.accent;
    }

on_atmosphere_home : (t : ThemeTokens) → IsAtHome t → on_atmosphere t t.atmosphere_mode ≡ t
unfolding on_atmosphere
on_atmosphere_home t h =
    let (mist, mist_deep, ink, ink_soft, signal_soft) = h.canvas in
    λ i. record t {
      mist = mist i;
      mist_deep = mist_deep i;
      ink = ink i;
      ink_soft = ink_soft i;
      signal_soft = signal_soft i;
      signal = sym h.signal i;
    }

flipped-flipped :
    (t : ThemeTokens)
    → IsAtHome t
    → flipped (flipped t (opposite t.color_scheme)) t.color_scheme ≡ t
unfolding flipped on_atmosphere
flipped-flipped t h = ap (on_atmosphere t) h.twin ∙ on_atmosphere_home t h

-- A theme comes back whole when its scheme is changed and changed back, if its accents, fonts, corners,
-- alert colour and atmosphere are there, its signal is its accent, its mists, inks and soft signal are
-- those of the canvas that its atmosphere, scheme and accent give, and its atmosphere is the twin of
-- its own twin.
pub apply_scheme_to_theme_preserve_twice :
    (t : ThemeTokens)
    → IsAtHome t
    → apply_scheme_to_theme_preserve
        (apply_scheme_to_theme_preserve t (opposite t.color_scheme))
        t.color_scheme
      ≡ t
unfolding flipped
apply_scheme_to_theme_preserve_twice t h =
    let s = t.color_scheme in
    ap (λ u. apply_scheme_to_theme_preserve u s)
      (preserve-flipped t (opposite s) (other_scheme s) h.filled h.has_atmosphere h.has_alert)
    ∙ preserve-flipped (flipped t (opposite s)) s (scheme_back s) h.filled
        (pair_ne_empty t.atmosphere_mode (opposite s)) h.has_alert
    ∙ flipped-flipped t h
