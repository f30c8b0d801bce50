-- ===== src/Launcher/Credentials.antt =====
-- launcher.cpp (server/src/server): as whom a script runs.
use steamos_containerized.Common.{Text, ℕ, ◌≡◌, true, Option, some, List, [], ◌∷◌, All, Bool, false}
use steamos_containerized.StdLib.{StdLib}
use steamos_containerized.Launcher.{
  RunAs, Sys, call_initgroups, call_setgid, call_setuid, exec_script, Launched, throws, returned,
}

-- The user, the group, and the user whose other groups a process has.
pub record Cred : Type 0 where
  pub uid : ℕ
  pub gid : ℕ
  pub groups_of : Option Text

abbrev pub after_sys : Cred → Sys → Cred
after_sys c (call_initgroups user g true) = record c { groups_of = some user }
after_sys c (call_setgid g true) = record c { gid = g }
after_sys c (call_setuid u true) = record c { uid = u }
after_sys c _ = c

-- As whom each script of the calls is run.
unfoldable pub exec_creds : Cred → List Sys → List Cred
exec_creds c [] = []
exec_creds c (exec_script script args env ∷ rest) = c ∷ exec_creds c rest
exec_creds c (s ∷ rest) = exec_creds (after_sys c s) rest

-- A script that root starts runs as the configured user, with the other groups of this user if the
-- kernel set them and those of root otherwise; anybody else's runs as who started it.
abbrev pub RunsAs : Bool → Bool → RunAs → Cred → Cred → Type 0
RunsAs true true r start c =
    (c.uid ≡ r.run_uid) × ((c.gid ≡ r.run_gid) × (c.groups_of ≡ some r.user))
RunsAs true false r start c =
    (c.uid ≡ r.run_uid) × ((c.gid ≡ r.run_gid) × (c.groups_of ≡ start.groups_of))
RunsAs false groups_ok r start c = c ≡ start

abbrev pub calls_of : {A : Type 0} → Launched A → List Sys
calls_of throws = []
calls_of (returned a calls) = calls

-- Calls after which nobody else runs.
abbrev KeepsCred : List Sys → Type 0
KeepsCred rest = (c : Cred) → All (λ d. d ≡ c) (exec_creds c rest)

dropped : Option Text → RunAs → Cred
dropped groups r = record { uid = r.run_uid; gid = r.run_gid; groups_of = groups }
