-- ===== src/Paths/Requests.antt =====
-- What Request_path_init hands to a request, on every branch.
use ext_zookeeper.Prelude.{ℕ, ◌≡◌, inl, inr, sym, ◌∙◌, true, false, some, List, Bool-cases}
use ext_zookeeper.Recordio.{is_neg}
use ext_zookeeper.Codes.{zok, zbadarguments, zinvalidstate}
use ext_zookeeper.Paths.Defs.{
  PathHandle, prepend_string, sub_string, is_valid_path, is_unrecoverable, request_path_init,
}
use ext_zookeeper.Paths.Chroot.{IsClientPath, sub_string-prepend_string}
use ext_zookeeper.Paths.Checks.{IsPath, is_valid_path_iff}

module _ (zh : PathHandle) (flags : ℕ) (path : List ℕ) where
  abbrev out : List ℕ
  out = prepend_string (some zh) path

  -- The three ends of Request_path_init.
  pub data Outcome : ℕ × List ℕ → Type 0 where
    refused : (IsPath out flags → ⊥) → Outcome (zbadarguments, out)
    unusable : IsPath out flags → is_neg zh.state ≡ true → Outcome (zinvalidstate, out)
    accepted :
        IsPath out flags
        → is_neg zh.state ≡ false
        → (IsClientPath path → sub_string zh out ≡ path)
        → Outcome (zok, out)

  -- On a handle that is not null, Request_path_init refuses a path with ZBADARGUMENTS just when
  -- it is no path behind the chroot; else it answers ZINVALIDSTATE when the state of the handle
  -- is below 0; else the path goes out, and stripping the chroot from it gives the client's path
  -- back, if that is not empty and has more than one character or is the root.
  pub request_path_init-Outcome : Outcome (request_path_init (some zh) flags path)
  unfolding request_path_init is_unrecoverable
  request_path_init-Outcome = elim (Bool-cases (is_valid_path (some out) flags)) [
    | inr bad ↦
        rw bad (
          refused (λ v. let f : true ≡ false = sym ((is_valid_path_iff out flags).1 v) ∙ bad in cc))
    | inl ok ↦ elim (Bool-cases (is_neg zh.state)) [
      | inl neg ↦ rw (ok, neg) (unusable ((is_valid_path_iff out flags).0 ok) neg)
      | inr pos ↦
          rw (ok, pos)
            (accepted ((is_valid_path_iff out flags).0 ok) pos (sub_string-prepend_string zh path))
    ]
  ]
