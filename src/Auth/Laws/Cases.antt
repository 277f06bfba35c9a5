-- ===== src/Auth/Laws/Cases.antt =====
-- The case split on the setup status that every user of `fetchSetupStatus` makes.
use guardian_cloud.Prelude.{ℕ, Bool, String}
use guardian_cloud.Auth.State.{AuthState}
use guardian_cloud.Auth.Provider.{SetupStatus}

pub by_status :
    (P : AuthState → Type 0) (x : SetupStatus) (f : Bool → AuthState) (g : ℕ → AuthState)
    (h : String → AuthState)
    → ((needs : Bool) → P (f needs))
    → ((c : ℕ) → P (g c))
    → ((m : String) → P (h m))
    → P (elim x [
      | SetupStatus.answered needs ↦ f needs
      | SetupStatus.refused c ↦ g c
      | SetupStatus.failed m ↦ h m
    ])
by_status P (SetupStatus.answered needs) f g h u v w = u needs
by_status P (SetupStatus.refused c) f g h u v w = v c
by_status P (SetupStatus.failed m) f g h u v w = w m
