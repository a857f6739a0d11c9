-- ===== src/Endpoint/Order.antt =====
-- The order in which the map of properties is visited.
use mathlib.Core.List.{Permᴰ, Perm, append-nil, append_assoc, perm_append_comm}
use mathlib.Core.List.Perm
use pubsubplus_go_client.Prelude.{ℕ, ◌≡◌, refl, sym, ap, ◌∙◌, [], ◌∷◌, ◌++◌, Result, ok, err, ◌>>=◌}
use mathlib.Core.Path.{subst, fun_ext}
use pubsubplus_go_client.Prelude.Int.{ℤ}
use pubsubplus_go_client.Prelude.Dict.{Dict}
use pubsubplus_go_client.Sdt.Strconv.{Bytes}
use pubsubplus_go_client.Validation.{Value, PropertyError}
use pubsubplus_go_client.Endpoint.{
  Key, Setting, Settings, setting, validate_from, validate_endpoint_properties,
}

-- Both fail, or both succeed with the same settings in some order.
abbrev pub SameSettings : Result PropertyError Settings → Result PropertyError Settings → Type 0
SameSettings (ok s) (ok t) = Perm s t
SameSettings (ok s) (err e) = ⊥
SameSettings (err e) (ok t) = ⊥
SameSettings (err e) (err f) = Unit

same_trans :
    (a b c : Result PropertyError Settings) → SameSettings a b → SameSettings b c → SameSettings a c
same_trans (ok s) (ok t) (ok u) h k = Perm.trans h k
same_trans (ok s) (ok t) (err e) h k = k
same_trans (ok s) (err e) c h k = absurd h
same_trans (err e) (ok t) c h k = absurd h
same_trans (err e) (err f) (ok u) h k = k
same_trans (err e) (err f) (err g) h k = tt

same_refl : (a : Result PropertyError Settings) → SameSettings a a
same_refl (ok s) = Perm.refl s
same_refl (err e) = tt

-- The settings of one round before those of the others.
abbrev joined :
    Result PropertyError Settings → Result PropertyError Settings → Result PropertyError Settings
joined r c = r >>= λ s. c >>= λ t. ok (s ++ t)

same_joined :
    (r c d : Result PropertyError Settings)
    → SameSettings c d
    → SameSettings (joined r c) (joined r d)
same_joined (err e) c d h = tt
same_joined (ok s) (ok t) (ok u) h = Perm.append_left s h
same_joined (ok s) (ok t) (err e) h = h
same_joined (ok s) (err e) (ok u) h = h
same_joined (ok s) (err e) (err f) h = tt

joined_swap :
    (r q c : Result PropertyError Settings)
    → SameSettings (joined r (joined q c)) (joined q (joined r c))
joined_swap (err e) (err f) c = tt
joined_swap (err e) (ok t) (ok u) = tt
joined_swap (err e) (ok t) (err g) = tt
joined_swap (ok s) (err f) (ok u) = tt
joined_swap (ok s) (err f) (err g) = tt
joined_swap (ok s) (ok t) (err g) = tt
joined_swap (ok s) (ok t) (ok u) =
    subst (λ l. Perm l (t ++ (s ++ u))) (append_assoc s t u)
      (subst (Perm ((s ++ t) ++ u)) (append_assoc t s u)
        (Perm.append_right u (perm_append_comm s t)))

module _ (truncate : ℕ → ℤ) (show : Value → Bytes) where
  abbrev of_entry : ℕ × Value → Result PropertyError Settings
  of_entry e = setting truncate show e.0 e.1

  -- The loop with its settings bracketed to the right.
  collect : Dict Value → Result PropertyError Settings
  collect [] = ok []
  collect (e ∷ entries) = joined (of_entry e) (collect entries)

  abbrev after : Settings → Result PropertyError Settings → Result PropertyError Settings
  after before c = c >>= λ s. ok (before ++ s)

  after-joined :
      (before : Settings) (r c : Result PropertyError Settings)
      → (r >>= λ s. after (before ++ s) c) ≡ after before (joined r c)
  after-joined before (err e) c = refl
  after-joined before (ok s) (err e) = refl
  after-joined before (ok s) (ok t) = ap ok (append_assoc before s t)

  validate_from-collect :
      (entries : Dict Value) (before : Settings)
      → validate_from truncate show entries before ≡ after before (collect entries)
  unfolding validate_from collect
  validate_from-collect [] before = ap ok (sym (append-nil before))
  validate_from-collect ((p, v) ∷ entries) before =
      ap (λ f. setting truncate show p v >>= f)
        (fun_ext (λ s. validate_from-collect entries (before ++ s)))
      ∙ after-joined before (setting truncate show p v) (collect entries)

  collect-perm :
      {entries others : Dict Value}
      → Permᴰ entries others
      → SameSettings (collect entries) (collect others)
  unfolding collect
  collect-perm Permᴰ.nil = Perm.refl []
  collect-perm (Permᴰ.cons {a} {b} {l₁} {l₂} e p) =
      subst (λ x. SameSettings (collect (a ∷ l₁)) (joined (of_entry x) (collect l₂))) e
        (same_joined (of_entry a) (collect l₁) (collect l₂) (collect-perm p))
  collect-perm (Permᴰ.swap {a} {b} {a'} {b'} {l} e f) =
      subst
        (λ x.
          SameSettings (collect (a ∷ b ∷ l))
            (joined (of_entry a') (joined (of_entry x) (collect l))))
        e
        (subst
          (λ x.
            SameSettings (collect (a ∷ b ∷ l))
              (joined (of_entry x) (joined (of_entry a) (collect l))))
          f (joined_swap (of_entry a) (of_entry b) (collect l)))
  collect-perm (Permᴰ.trans {l₁} {l₂} {l₃} p q) =
      same_trans (collect l₁) (collect l₂) (collect l₃) (collect-perm p) (collect-perm q)

  after-same :
      (before : Settings) (c d : Result PropertyError Settings)
      → SameSettings c d
      → SameSettings (after before c) (after before d)
  after-same before (ok s) (ok t) h = Perm.append_left before h
  after-same before (ok s) (err e) h = h
  after-same before (err e) (ok t) h = h
  after-same before (err e) (err f) h = h

  -- In whatever order the map of properties is visited: either every visit fails, or each succeeds with
  -- the same keys and values for the C library, in some order.
  pub validate-perm :
      {entries others : Dict Value}
      → Permᴰ entries others
      → SameSettings
          (validate_endpoint_properties truncate show entries)
          (validate_endpoint_properties truncate show others)
  unfolding validate_endpoint_properties
  validate-perm {entries} {others} p =
      let first : Settings = (Key.id, Setting.queue) ∷ [] in
      subst (λ r. SameSettings r (validate_from truncate show others first))
        (sym (validate_from-collect entries first))
        (subst (SameSettings (after first (collect entries)))
          (sym (validate_from-collect others first))
          (after-same first (collect entries) (collect others) (collect-perm p)))
