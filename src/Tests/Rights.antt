-- ===== src/Tests/Rights.antt =====
-- Rights, accounts and the rate limiter at concrete inputs (core/src).
use collaborative_text_edito.Common.{
  ◌+◌, ◌*◌, ◌%◌, ◌^◌, ◌≡◌, ◌≢◌, ◌↔◌, refl, ap, arith, true, false, [], ◌∷◌, ◌++◌, Bytes, bytes,
  length,
}
use collaborative_text_edito.Common.Assoc.{nat_key, bytes_key, lookup}
use collaborative_text_edito.Core.Access.{
  Role, AccessControl, can_read, can_edit, list_documents_for_user,
}
use collaborative_text_edito.Core.Hash.{Digest, AllBytes, generate_salt}
use collaborative_text_edito.Core.Auth
use collaborative_text_edito.Core.Auth.{
  AuthManager, register_user, login, find_user_id, succeeded, failed,
}
use collaborative_text_edito.Core.Auth.Accounts.{login-register_user}
use collaborative_text_edito.Core.TokenBucket.{
  System, Reach, first, later, pick, load, exchange, idle, consuming, returned, update, granted_by,
  added_by,
}
use collaborative_text_edito.Core.TokenBucket.Ledger.{IsBalanced, reach-IsBalanced}

-- User 1 owns document 5, and user 2 may view it.
abbrev shared : AccessControl
shared = record { rights = (5 * 2 ^ 32 + 1, Role.owner) ∷ (5 * 2 ^ 32 + 2, Role.viewer) ∷ [] }

viewer_reads :
    (can_read shared 5 2 ≡ true)
    × (can_edit shared 5 2 ≡ false)
    × (list_documents_for_user shared 2 ≡ 5 ∷ [])
unfolding can_read can_edit list_documents_for_user
viewer_reads = (refl, refl, refl)

-- A digest that is the length of its input.
abbrev lengths : Digest
lengths = record { cc_sha256 = λ x. (length x % 256) ∷ [] }

lengths-AllBytes : (x : Bytes) → AllBytes (lengths.cc_sha256 x)
unfolding AllBytes
lengths-AllBytes x = (omega arith, tt)

ann_registers :
    (register_user lengths Auth.init (bytes "ann") (bytes "pw") (17 ∷ [])).1.success ≡ true
unfolding register_user lookup Auth.add_user
ann_registers = refl

abbrev ann : AuthManager
ann = (register_user lengths Auth.init (bytes "ann") (bytes "pw") (17 ∷ [])).0

login-register_user_example :
    ((login lengths ann (bytes "ann") (bytes "no")
        ≡ succeeded
            (register_user lengths Auth.init (bytes "ann") (bytes "pw") (17 ∷ [])).1.user_id)
      ↔ (lengths.cc_sha256 (generate_salt (17 ∷ []) ++ bytes "no")
          ≡ lengths.cc_sha256 (generate_salt (17 ∷ []) ++ bytes "pw")))
    × ((login lengths ann (bytes "ann") (bytes "no") ≡ failed (bytes "invalid_credentials")) ↔ (
        lengths.cc_sha256 (generate_salt (17 ∷ []) ++ bytes "no")
        ≢ lengths.cc_sha256 (generate_salt (17 ∷ []) ++ bytes "pw")))
    × (login lengths ann (bytes "bobby") (bytes "x")
        ≡ login lengths Auth.init (bytes "bobby") (bytes "x"))
login-register_user_example =
    login-register_user lengths Auth.init (bytes "ann") (bytes "pw") (17 ∷ []) (bytes "no")
      (bytes "bobby") (bytes "x") lengths-AllBytes ann_registers (λ e. omega (arith, ap length e))

-- One thread has taken two of three tokens.
abbrev taken : System
taken = record {
  tokens = 1;
  pc = update (update (λ i. idle) 0 (consuming 3 2)) 0 (returned true);
  granted = 2;
  added = 0;
}

taken-Reach : Reach 3 taken
unfolding granted_by added_by
taken-Reach = later (later first (pick 0 (load 2))) (pick 0 (exchange (omega arith) refl))

reach-IsBalanced_example : IsBalanced 3 taken
reach-IsBalanced_example = reach-IsBalanced (omega arith) taken-Reach
