-- ===== src/Lib.antt =====
-- Guardian Cloud: a verification library for the web console of the endpoint-security control plane
-- (web/src, TypeScript).
--
-- The console's administration pages read and write one store. `repositories/adminStore.ts` holds the
-- class `AdminStore`: twenty collections with their initial values from `mock/adminMockData.ts`, of the
-- types in `types/admin.ts`, a set of listeners, and an audit log. `services/adminService.ts` is the
-- pages' way in and hands each call on. A method that changes the store finds its object by id,
-- replaces it in its array, puts an entry before the audit log (`logAction`) and calls each listener
-- (`notify`); a method that finds no object returns `undefined` or `false` before it does any of this.
--
-- Every request to the API goes through `request` of `lib/apiClient.ts`, which attaches the CSRF
-- token, tells a failed request from an answer with an error, and reports a session that the API no
-- longer knows to a handler. `auth/AuthProvider.tsx` sets that handler; it finds out at the start
-- whether the console is set up and who is signed in, and signs in and out. `auth/RequireAuth.tsx`
-- shows a page, or sends the user elsewhere, by the provider's state alone.
--
-- The look of the pages is a theme, an object of tokens (`theme/tokens.ts`). `theme/ThemeProvider.tsx`
-- keeps the theme of the platform, polls the API for it and paints it on the page;
-- `theme/adminTheme.tsx` keeps a user's own theme of the dashboard, shows a change before the API has
-- confirmed it and takes it back when a save fails; `applyThemeTokens` lets through only the paintings
-- that those who own the page's theme allow. `theme/navPrefs.tsx` keeps the preferences of the
-- navigation, in memory and at the API.
--
-- An organization comes into the store by a wizard of eight steps, `OrganizationOnboardingPage`, whose
-- form is checked step by step against a schema of `schemas/adminSchemas.ts`.
--
-- A person signs in on `pages/super/SuperLoginPage.tsx` (staff), which asks for a second factor, or has
-- one enrolled, on forms of its own, or on `pages/LoginPage.tsx` (customers), which leaves for the pages
-- of `pages/app/CustomerMfaPages.tsx`. All of them call `login`, `verifyMfa` and `refresh` of the session
-- provider, and leave for the page from which `RequireAuth` has sent the person. Around them are the
-- pages that set the console up, register a customer and recover a password.
--
-- Files:
--   Prelude       names of the libraries, tests, arrays (`find`, `findIndex`, `filter`), text
--                 (`toString`, `slice`, `substring`, `includes`), their laws
--   Admin/Types   web/src/types/admin.ts, a data type for each union and a record for each interface;
--                 `Partial<T>` and the merging of a partial object
--   Admin/State   the fields of `AdminStore`, the host, `logAction`, `notify`, `subscribe`
--   Admin/Store   the methods of `AdminStore`, in the order of the source, and `getMetrics`
--   Admin/Seed    web/src/mock/adminMockData.ts and the store that the class begins with
--   Admin/Service `adminService`: each method that changes the store is a command
--   Admin/Laws    the theorems about the store; Admin/Tests the theorems at concrete inputs
--   Client        web/src/lib/apiClient.ts: JSON values, the look-up of a cookie, `request` in two
--                 halves, before and after `fetch`; Client/Laws and Client/Tests
--   Auth/State    the state of `AuthProvider`, its handler of lost sessions, a request that calls it
--   Auth/Provider the operations of `AuthProvider`; Auth/Actions them as one type of actions
--   Auth/Gate     web/src/auth/AuthBoundary.tsx and RequireAuth.tsx: what a route shows
--   Auth/Idle     web/src/auth/useIdleTimeout.ts
--   Auth/Laws     the theorems about them; Auth/Tests the theorems at concrete inputs
--   Theme/Tokens  the types and defaults of web/src/theme/tokens.ts; Theme/Packs, Theme/Presets and
--                 Theme/Atmospheres its tables, Theme/Colors its texts, Theme/Schemes the changes of
--                 scheme, Theme/CssVars the variables, Theme/Document the painting of the page
--   Theme/Platform and Theme/Provider: web/src/theme/ThemeProvider.tsx, what is sent and read, and
--                 the operations of the provider with its polling
--   Theme/DashboardApi and Theme/Personal: web/src/theme/adminTheme.tsx, likewise
--   Theme/NavTypes and Theme/Nav: web/src/theme/navPrefs.tsx
--   Theme/Shell   the effects of web/src/layouts/SuperAdminShell.tsx on the page
--   Theme/Laws    the theorems about them; Theme/Tests the theorems at concrete inputs
--   Onboarding/Schema and Onboarding/Schemas: web/src/schemas/adminSchemas.ts, as data
--   Onboarding/Form and Onboarding/Wizard: web/src/pages/admin/organizations/
--                 OrganizationOnboardingPage.tsx, the values of its form and its steps
--   Onboarding/Laws the theorems about it; Onboarding/Tests the theorems at concrete inputs
--   Account/Page and Account/Requests: web/src/pages/admin/account/AccountSecurityPage.tsx, and its
--                 requests as they go out through the session provider; Account/Laws the theorems about
--                 it, Account/Tests the theorems at concrete inputs
--   SignIn/Staff  web/src/pages/super/SuperLoginPage.tsx; SignIn/StaffActions what happens on it
--   SignIn/Customer, SignIn/Challenge and SignIn/Enrolment: web/src/pages/LoginPage.tsx, and with the
--                 texts in which they differ the pages of web/src/pages/app/CustomerMfaPages.tsx and
--                 SuperMfaChallengePage.tsx and SuperMfaEnrollPage.tsx of web/src/pages/super, and
--                 web/src/components/auth/InlineTotpEnroll.tsx
--   SignIn/Registration web/src/pages/super/SuperSetupPage.tsx, web/src/pages/SignupPage.tsx and
--                 web/src/pages/app/CustomerAuthPages.tsx
--   SignIn/Factors and SignIn/Common: what these pages share; SignIn/Laws the theorems about them,
--                 SignIn/Tests the theorems at concrete inputs
--
-- Conventions. A method returns its result and the new store. JavaScript's `undefined` result is
-- `none`, and `findIndex` gives `none` for -1. A string union is a data type whose constructors are the
-- literals in lower case. Numbers are natural numbers; the fields that the source writes with decimals
-- (prices, `mrr`, `uptimePercent`, `adoptionRate`) are in hundredths, where the sums are exact, while
-- the source adds floating-point numbers. A field of a partial object is absent or given: no caller
-- gives `undefined` itself. What JavaScript's runtime gives a call (the clock, the random source, the
-- text of a date) is the record `Host`, a parameter of the methods that read it; the readings are
-- numbered by the place of the expression that makes them, so two readings may differ. A listener is a
-- name, and the calls of listeners are a trace: a listener of the views only reads the store.
--
-- The browser (cookies, `decodeURIComponent`, `JSON.parse` and `JSON.stringify`) is the record
-- `Browser`, and `fetch` is a function from the request that goes out to an answer or a rejection: a
-- timeout and an abort are rejections. A provider is given a browser and a `fetch` for the number of
-- each request, so cookies and answers change freely. A request that the provider makes and a time that
-- it waits are put into a trace. Numbers in JSON are natural numbers, and a body is an object.
--
-- In a theme a missing text is the empty one: the code replaces both alike, by `||`. `THEME_DB_ONLY` and
-- `NAV_DB_ONLY` are true, so the branches that read and write the browser's storage are dead and are
-- left out. `parseInt` reads the digits up to the first character that is none; a colour without any
-- digit, NaN in the source, is read as 0, and both give the bytes 0. The answer of a request is an
-- argument of the operation that takes it. An operation that goes on after its answer is two
-- definitions, so that answers and other operations may come in any order; React's rendering between
-- two operations is taken as done.
--
-- The wizard is given what the package zod makes of a value under a rule of the schema. The values of its
-- form are a function of the fields; an input of a step changes its own field, a checkbox by a truth
-- value and every other input by a text, as the browser does; numbers in the form are
-- whole, so an input such as 1.5, which the schema takes since it does not ask for whole numbers, is
-- outside the model. A trigger of the form's checks and what follows it are one step.
--
-- A handler of the sign-in pages runs to the end of its request before anything else happens, so the
-- flags of running handlers are left out; the request that starts an enrolment is answered at any later
-- time, or never. Inputs and buttons act only where the page draws them and has them active; the
-- staff's page acts also while a set-up is required, where its route only redirects, so it has more runs
-- than the source. A `navigate` is put into a trace, with the state that it hands on. The length of a
-- text is the number of its characters, which is JavaScript's below U+10000.
--
-- Bounds. `toString` prints with fuel one above the number, and each round takes a digit off, so the
-- fuel is enough. Every other recursion is structural; the loop of the start-up is one over the attempts
-- that are left, which the source counts upwards to `INIT_RETRIES`.
--
-- Not modelled: the markup and styles of the pages (React components under web/src/components,
-- web/src/pages and web/src/layouts), which draw what the store returns, but for the wizard, the
-- account page, the pages of the sign-in and the effects of the shell; the table of the routes; the
-- settings and the buttons of the sign-on providers; and the Go service behind the API, whose answers the
-- console takes as they come.
pub mod Account
pub mod Admin
pub mod Auth
pub mod Client
pub mod Onboarding
pub mod Prelude
pub mod SignIn
pub mod Theme
