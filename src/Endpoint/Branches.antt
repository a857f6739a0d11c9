-- ===== src/Endpoint/Branches.antt =====
-- What a call of Provision or Deprovision comes to before the wait, on every branch.
use pubsubplus_go_client.Prelude.{
  ℕ, ◌+◌, ◌%◌, ◌^◌, ◌≡◌, refl, Bool, true, false, [], ◌∷◌, ◌++◌, Option, none, some, ◌==◌,
  if◌then◌else◌, Result, ok, err, arith,
}
use pubsubplus_go_client.Prelude.Int.{ℤ}
use pubsubplus_go_client.Prelude.Dict.{Dict, fetch, assign, fetch-assign, fetch-discard}
use pubsubplus_go_client.Sdt.Strconv.{Bytes}
use pubsubplus_go_client.Validation.{Value, PropertyError}
use pubsubplus_go_client.Core.Pending.{request, requested, new_correlation, reserve, store, clear}
use pubsubplus_go_client.Core.Provisioner
use pubsubplus_go_client.Core.Provisioner.{Provisioner, asked}
use pubsubplus_go_client.Endpoint.{Settings, Key, Setting, validate_endpoint_properties}
use pubsubplus_go_client.Endpoint.Outcome.{
  Begun, settled, waits, not_running, invalid, native, awaited, with_settings, provision,
  deprovision,
}

module _ {H E : Type 0} where
  abbrev table : Provisioner H E → Dict ℕ
  table s = s.provisions.correlation

  -- The id that the next request takes.
  abbrev next_id : Provisioner H E → ℕ
  next_id s = (s.provisions.correlation_id + 1) % 2 ^ 64

  -- The library takes the request, whose id then waits in the table, or refuses it, and its id is not
  -- in the table.
  abbrev pub AskedTold : Option E → Provisioner H E → Provisioner H E × Begun E → Type 0
  AskedTold none s (s', b) =
      (b ≡ waits (next_id s))
      × ((k : ℕ) → fetch (table s') k ≡ (if k == next_id s then some k else fetch (table s) k))
  AskedTold (some e) s (s', b) =
      (b ≡ settled (native e))
      × ((k : ℕ) → fetch (table s') k ≡ (if k == next_id s then none else fetch (table s) k))

  -- `r` is the result of the validation, `library` the answer of the C library to a request.
  abbrev pub Told :
      Bool
      → Result PropertyError Settings
      → Bytes
      → (Settings → ℕ → Option E)
      → Provisioner H E
      → Provisioner H E × Begun E
      → Type 0
  Told false r name library s (s', b) = (b ≡ settled not_running) × (s' ≡ s)
  Told true (err e) name library s (s', b) = (b ≡ settled (invalid e)) × (s' ≡ s)
  Told true (ok settings) name library s outcome =
      AskedTold (library (settings ++ ((Key.name, Setting.text name) ∷ [])) (next_id s)) s outcome

  asked-Told :
      (o : Option E) (s : Provisioner H E)
      → let (pending, id) = new_correlation s.provisions in
        let (pending', e) = requested o id pending in
        AskedTold o s (awaited (asked s (pending', (id, e))))
  unfolding new_correlation reserve store clear
  asked-Told none s = (refl, λ k. ground (arith, fetch-assign (table s) (next_id s) k (next_id s)))
  asked-Told (some e) s = (
    refl,
    λ k. ground (
      arith,
      fetch-assign (table s) (next_id s) k (next_id s),
      fetch-discard (assign (table s) (next_id s) (next_id s)) (next_id s) k,
    ),
  )

  settings-Told :
      (r : Result PropertyError Settings) (name : Bytes) (library : Settings → ℕ → Option E)
      (s : Provisioner H E)
      → Told true r name library s
          (with_settings r name (λ p t. asked t (request (library p) t.provisions)) s)
  unfolding request
  settings-Told (err e) name library s = (refl, refl)
  settings-Told (ok settings) name library s =
      asked-Told (library (settings ++ ((Key.name, Setting.text name) ∷ [])) (next_id s)) s

  -- The condition of the guard, on either side.
  guarded-Told :
      (b : Bool) (r : Result PropertyError Settings) (name : Bytes)
      (library : Settings → ℕ → Option E) (s : Provisioner H E)
      → Told b r name library s (
          if b
          then with_settings r name (λ p t. asked t (request (library p) t.provisions)) s
          else (s, settled not_running))
  guarded-Told true r name library s = settings-Told r name library s
  guarded-Told false r name library s = (refl, refl)

  module _ (truncate : ℕ → ℤ) (show : Value → Bytes)
      (library : Settings → ℕ → Bool → Option E) where
    -- Provision and Deprovision up to the wait for the broker's answer, on every branch: a provisioner
    -- that does not run gives the error of that, and a running one with an invalid property the error of
    -- the validation, and both change nothing; with valid properties the C library is asked with the
    -- settings and the name of the queue under the id that is next: the error of its refusal is given
    -- on, and no entry of that id is in the table, or the call waits under that id, which is now in the
    -- table. The entries of the others stay as they are.
    pub provision-Told :
        (properties : Dict Value) (queue_name : Bytes) (ignore : Bool) (s : Provisioner H E)
        → let r = validate_endpoint_properties truncate show properties in
          Told s.is_running r queue_name
            (λ p id. library p id ignore)
            s
            (provision truncate show library properties queue_name ignore s)
          × Told s.is_running r queue_name
              (λ p id. library p id ignore)
              s
              (deprovision truncate show library properties queue_name ignore s)
    unfolding provision deprovision Provisioner.provision Provisioner.deprovision
    provision-Told properties queue_name ignore s =
        let r = validate_endpoint_properties truncate show properties in
        (
          guarded-Told s.is_running r queue_name (λ p id. library p id ignore) s,
          guarded-Told s.is_running r queue_name (λ p id. library p id ignore) s,
        )
