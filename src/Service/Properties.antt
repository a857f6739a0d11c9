-- ===== src/Service/Properties.antt =====
-- UpdateProperty of internal/impl/messaging_service_impl.go.
use pubsubplus_go_client.Prelude.{
  ◌≡◌, ◌≢◌, ◌↔◌, Bool, true, false, ◌||◌, List, [], ◌∷◌, Option, none, some, if◌then◌else◌, arith,
}
use pubsubplus_go_client.Service.{State, is_not_connected, is_connecting, is_connected_state}

-- `config.ServiceProperty`, which is a string: the two that can be modified, and the others.
pub data ServiceProperty : Type 0 where
  oauth2_access_token oauth2_oidc_id_token other : ServiceProperty

abbrev same_property : ServiceProperty → ServiceProperty → Bool
same_property oauth2_access_token oauth2_access_token = true
same_property oauth2_oidc_id_token oauth2_oidc_id_token = true
same_property _ _ = false

abbrev modifiable_properties : List ServiceProperty
modifiable_properties = oauth2_access_token ∷ oauth2_oidc_id_token ∷ []

pub data UpdateError (E : Type 0) : Type 0 where
  disconnected_service non_modifiable : UpdateError E
  native : E → UpdateError E

unfoldable pub is_modifiable : List ServiceProperty → ServiceProperty → Bool
is_modifiable [] property = false
is_modifiable (p ∷ ps) property =
    let rest = is_modifiable ps property in if same_property property p then true else rest

abbrev updated : {E : Type 0} → Option E → Option (UpdateError E)
updated none = none
updated (some e) = some (native e)

module _ {V E : Type 0} where
  -- `modify` is the conversion of the property and the value with the call of the transport.
  unfoldable pub update_property :
      (ServiceProperty → V → Option E) → State → ServiceProperty → V → Option (UpdateError E)
  unfolding is_modifiable
  update_property modify state property value =
      if is_connected_state state || (is_not_connected state || is_connecting state)
      then (if is_modifiable modifiable_properties property
          then updated (modify property value)
          else some non_modifiable)
      else some disconnected_service

  -- A property can be updated exactly if the service has not begun to end, the property is one of the
  -- two tokens, and the transport takes it.
  update_property-eq-none :
      (modify : ServiceProperty → V → Option E) (state : State) (property : ServiceProperty)
      (value : V)
      → (update_property modify state property value ≡ none) ↔ (
          ((is_connected_state state || (is_not_connected state || is_connecting state)) ≡ true)
          × (property ≢ other)
          × (modify property value ≡ none))
  unfolding update_property is_modifiable
  update_property-eq-none modify state oauth2_access_token value = ground arith
  update_property-eq-none modify state oauth2_oidc_id_token value = ground arith
  update_property-eq-none modify state other value = ground arith
