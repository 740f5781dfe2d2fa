-- ===== src/Paths/Checks.antt =====
-- What isValidPath accepts, in terms of the names between the slashes.
use ext_zookeeper.Prelude.{
  ℕ, zero, suc, ◌+◌, ◌-◌, ◌≤◌, ◌<◌, ◌≡◌, ◌≢◌, ◌↔◌, ◌⊎◌, inl, inr, refl, sym, ◌∙◌, true, false, some,
  List, [], ◌∷◌, length, get_or, ◌==◌, ◌&&◌, not, arith, Bool-cases, subst, ap,
}
use ext_zookeeper.Paths.Defs.{
  slash, dot, is_sequence, ends_part, refuses_char, check_chars, is_valid_path,
}

-- The name that has its last character at `i` ends there, and no sequence number will follow.
abbrev pub Ends : List ℕ → ℕ → ℕ → Type 0
Ends path flags i =
    ((i + 1 ≡ length path) × (is_sequence flags ≡ false)) ⊎ (get_or path (i + 1) 0 ≡ slash)

-- A path of names that are neither empty, nor ".", nor "..", without control characters.
pub record IsValidPath (path : List ℕ) (flags : ℕ) : Type 0 where
  pub no_empty :
      (i : ℕ) → 1 ≤ i → i < length path → get_or path i 0 ≡ slash → get_or path (i - 1) 0 ≢ slash
  pub no_dot :
      (i : ℕ)
      → 1 ≤ i
      → i < length path
      → get_or path i 0 ≡ dot
      → get_or path (i - 1) 0 ≡ slash
      → ¬ Ends path flags i
  pub no_dot_dot :
      (i : ℕ)
      → 1 ≤ i
      → i < length path
      → get_or path i 0 ≡ dot
      → get_or path (i - 1) 0 ≡ dot
      → get_or path (i - 2) 0 ≡ slash
      → ¬ Ends path flags i
  pub no_zero : (i : ℕ) → 1 ≤ i → i < length path → get_or path i 0 ≢ 0
  pub no_control : (i : ℕ) → 1 ≤ i → i < length path → 31 ≤ get_or path i 0

ends_part_iff : (path : List ℕ) (flags i : ℕ) → (ends_part path flags i ≡ true) ↔ Ends path flags i
ends_part_iff path flags i = ground arith

-- The loop passes when it refuses no character.
abbrev pub Passes : List ℕ → ℕ → ℕ → Type 0
Passes path flags i = refuses_char path flags i (get_or path (i - 1) 0) (get_or path i 0) ≡ false

-- The first character that the loop looks at.
first_passes :
    (path : List ℕ) (flags i : ℕ)
    → refuses_char path flags (i + 1) (get_or path (i + 1 - 1) 0) (get_or path (i + 1) 0)
      ≡ refuses_char path flags (i + 1) (get_or path i 0) (get_or path (i + 1) 0)
first_passes path flags i =
    ap (λ k. refuses_char path flags (i + 1) (get_or path k 0) (get_or path (i + 1) 0))
      {x = i + 1 - 1} {y = i} (omega arith)

check_chars_iff :
    (rounds : ℕ) (path : List ℕ) (flags i : ℕ)
    → (check_chars rounds path flags (i + 1) (get_or path i 0) ≡ true)
      ↔ ((j : ℕ) → i < j → j ≤ i + rounds → Passes path flags j)
unfolding check_chars
check_chars_iff zero path flags i = (λ e j h k. absurd (omega arith), λ h. refl)
check_chars_iff (suc rounds) path flags i =
    let rest = check_chars_iff rounds path flags (i + 1) in
    elim (Bool-cases (refuses_char path flags (i + 1) (get_or path i 0) (get_or path (i + 1) 0))) [
      | inl bad ↦ (
        λ e. absurd (let f : false ≡ true = rw bad at e in cc),
        λ h. absurd (
            let f : true ≡ false =
              sym bad ∙ sym (first_passes path flags i) ∙ h (i + 1) (omega arith) (omega arith) in
            cc),
      )
      | inr ok ↦ (
        λ e j h k. elim (Bool-cases (j == i + 1)) [
          | inl here ↦
              subst (Passes path flags) {x = i + 1} {y = j} (ground arith)
                (first_passes path flags i ∙ ok)
          | inr later ↦ rest.0 (rw ok at e) j (ground (arith, h)) (omega (arith, k))
        ],
        λ h. rw ok (rest.1 (λ j a b. h j (omega (arith, a)) (omega (arith, b)))),
      )
    ]

module _ (path : List ℕ) (flags : ℕ) where
  abbrev AllPass : Type 0
  AllPass = (i : ℕ) → 1 ≤ i → i < length path → Passes path flags i

  passes-IsValidPath : AllPass → IsValidPath path flags
  passes-IsValidPath h = record {
    no_empty = λ i a b c d. ground (arith, h i a b);
    no_dot = λ i a b c d e. ground (arith, h i a b);
    no_dot_dot = λ i a b c d e f. ground (arith, h i a b);
    no_zero = λ i a b c. ground (arith, h i a b);
    no_control = λ i a b. ground (arith, h i a b);
  }

  IsValidPath-passes : IsValidPath path flags → AllPass
  IsValidPath-passes v i a b = ground (
    arith,
    v.no_empty i a b,
    v.no_dot i a b,
    v.no_dot_dot i a b,
    v.no_zero i a b,
    v.no_control i a b,
  )

-- What a path of a request is.
pub record IsPath (path : List ℕ) (flags : ℕ) : Type 0 where
  pub starts : get_or path 0 0 ≡ slash
  pub last : length path ≢ 1 → is_sequence flags ≡ false → get_or path (length path - 1) 0 ≢ slash
  pub names : IsValidPath path flags

empty_lem : (path : List ℕ) → length path ≡ 0 → get_or path 0 0 ≡ 0
empty_lem [] h = refl
empty_lem (c ∷ path) h = absurd (omega arith)

module _ (path : List ℕ) (flags : ℕ) where
  -- Whether the loop passes, at the arguments that isValidPath calls it with.
  checked_iff :
      get_or path 0 0 ≡ slash
      → 1 ≤ length path
      → (check_chars (length path - 1) path flags 1 slash ≡ true) ↔ IsValidPath path flags
  checked_iff starts h =
      let loop = check_chars_iff (length path - 1) path flags 0 in
      let same = ap (λ c. check_chars (length path - 1) path flags 1 c) starts in
      (
        λ e. passes-IsValidPath path flags (λ i a b. loop.0 (same ∙ e) i a (omega (arith, b))),
        λ v.
            sym same
            ∙ loop.1 (λ j a b. IsValidPath-passes path flags v j a (omega (arith, a, b, h))),
      )

  root-IsValidPath : length path ≡ 1 → IsValidPath path flags
  root-IsValidPath h = record {
    no_empty = λ i a b. absurd (omega arith);
    no_dot = λ i a b. absurd (omega arith);
    no_dot_dot = λ i a b. absurd (omega arith);
    no_zero = λ i a b. absurd (omega arith);
    no_control = λ i a b. absurd (omega arith);
  }

  -- isValidPath accepts just the paths that start with a slash, do not end with one (but for the
  -- root, or when a sequence number follows), and whose names are not empty, not "." and not ".."
  -- (a last one may be when a sequence number follows), without characters below 31.
  pub is_valid_path_iff : (is_valid_path (some path) flags ≡ true) ↔ IsPath path flags
  unfolding is_valid_path
  is_valid_path_iff = elim (Bool-cases (length path == 0)) [
    | inl e ↦ rw e (λ h. cc, λ v. absurd (omega (arith, empty_lem path (ground arith), v.starts)))
    | inr e ↦ elim (Bool-cases (get_or path 0 0 == slash)) [
      | inr n ↦ rw (e, n) (λ h. cc, λ v. absurd (let w = v.starts in ground arith))
      | inl y ↦ elim (Bool-cases (length path == 1)) [
        | inl one ↦
            rw (e, y, one)
              (
                λ h. record {
                  starts = ground arith;
                  last = λ n. absurd (n (ground arith));
                  names = root-IsValidPath (ground arith);
                },
                λ v. refl,
              )
        | inr more ↦
            elim (Bool-cases
              ((get_or path (length path - 1) 0 == slash) && not (is_sequence flags))) [
                | inl bad ↦
                    rw (e, y, more, bad)
                      (λ h. cc, λ v. absurd (v.last (ground arith) (ground arith) (ground arith)))
                | inr ok ↦
                    rw (e, y, more, ok)
                      (let c = checked_iff (ground arith) (ground arith) in
                        (
                          λ h. record {
                            starts = ground arith;
                            last = λ n s. ground arith;
                            names = c.0 h;
                          },
                          λ v. c.1 v.names,
                        ))
              ]
      ]
    ]
  ]
