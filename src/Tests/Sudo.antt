-- ===== src/Tests/Sudo.antt =====
-- src/ansina/auth/sudo.py and src/ansina/auth/totp.py at concrete inputs.
use ansina.Prelude.{
  ◌+◌, ◌≡◌, refl, String, none, some, [], ◌∷◌, true, false, ◌&&◌, arith, ok, ltb, if◌then◌else◌,
  str_eq,
}
use ansina.Clock.{iso}
use ansina.Auth.Sudo.{
  SudoGrant, Sudo, SudoSettings, Factor, get_lockout, active_lockout, resolve_factor, meant,
  resolve, new_grant, step_up,
}
use ansina.Auth.Sudo.Grant.{Accepts, resolve-step_up}
use ansina.Auth.Totp.{hotp}
use ansina.Auth.Totp.Replay.{Ascends, verify_all, verify_all-Ascends}
use ansina.Prelude.{ℕ, List}

-- In place of SHA-256.
abbrev digest : String → String
digest text = text

abbrev settings : SudoSettings
settings = record {
  ttl = 300000000;
  max_failed_attempts = 3;
  attempt_window = 900000000;
  lockout = 600000000;
}

abbrev old_grant : SudoGrant
old_grant = record {
  id = 1;
  user_id = 5;
  hash = "saltold";
  salt = "salt";
  verifier = "password";
  issued_at = 1000;
  expires_at = 2000000;
  revoked_at = none;
}

abbrev sudo : Sudo
sudo = record {
  grants = old_grant ∷ [];
  lockouts =
      record {
        user_id = 6;
        failed_count = 3;
        first_failed_at = some 1000;
        locked_until = some 2000000;
      }
      ∷ [];
}

abbrev good : Factor
good = record { name = "password"; accepts = true }

abbrev bad : Factor
bad = record { name = "password"; accepts = false }

password-Accepts : Accepts digest settings 1500000000 5 none (good ∷ []) sudo good
unfolding active_lockout get_lockout resolve_factor meant
password-Accepts = record { unlocked = refl; meant = refl; accepts = refl }

resolve-step_up_example :
    let (reply, t) = step_up digest settings 2 "pepper" "new" 1500000000 5 none (good ∷ []) sudo in
    (reply
      ≡ ok (
          some (record {
            token = "new";
            grant_id = 2;
            verifier = "password";
            expires_at = iso (1500000000 + 300000000);
          })))
    × (get_lockout 5 t.lockouts ≡ none)
    × (resolve digest settings 1600000000 5 "old" t ≡ (
        if ltb (iso 1600000000) (iso (1500000000 + 300000000)) && str_eq "pepperold" "peppernew"
        then some (new_grant digest settings 2 "pepper" "new" 1500000000 5 "password")
        else none))
    × (resolve digest settings 1600000000 6 "old" t
        ≡ resolve digest settings 1600000000 6 "old" sudo)
resolve-step_up_example =
    resolve-step_up digest settings 2 1500000000 1600000000 5 6 "pepper" "new" "old" none
      (good ∷ []) good sudo password-Accepts (omega arith)

-- In place of HMAC-SHA1: the counter in the bytes that the offset 0 points at.
abbrev mac : ℕ → List ℕ
mac counter = 0 ∷ 0 ∷ 0 ∷ counter ∷ 0 ∷ []

-- The codes of the steps 7 and 9.
abbrev seven : List ℕ
seven = 48 ∷ 48 ∷ 48 ∷ 48 ∷ 48 ∷ 55 ∷ []

abbrev nine : List ℕ
nine = 48 ∷ 48 ∷ 48 ∷ 48 ∷ 48 ∷ 57 ∷ []

code_of_seven : hotp mac 6 7 ≡ seven
unfolding hotp
code_of_seven = refl

verify_all-Ascends_example :
    Ascends mac 6
      (some 6)
      (verify_all mac 6 ((250, seven) ∷ (251, seven) ∷ (280, nine) ∷ []) (some 6))
verify_all-Ascends_example =
    verify_all-Ascends mac 6 ((250, seven) ∷ (251, seven) ∷ (280, nine) ∷ []) (some 6)
