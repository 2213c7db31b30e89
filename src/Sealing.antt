-- ===== src/Sealing.antt =====
-- vault/vault.go: how a Vault server is initialized and unsealed, and a server that keeps the key
-- by which others unseal themselves.
pub mod Unsealing
pub mod Source
pub mod AnyVault
use yurt.Prelude.{
  ℕ, String, ◌<>◌, Bool, true, false, not, ◌||◌, ◌&&◌, List, [], ◌∷◌, Option, none, some, Dict,
  str_eq, if◌then◌else◌,
}
use yurt.Effects.{Error, Result, ok, err, message, wrapped}
use yurt.Effects.Calls.{Exec, pure, call, raise, ◌>>=◌, ◌>>◌}
use yurt.Commands.Vault.{Seal}

-- Of a `SealStatusResponse`, what the program reads.
pub record SealStatus : Type 0 where
  pub sealed : Bool
  pub initialized : Bool

-- `Status`, its loop. The list holds the answers of the rounds that begin before the context ends,
-- `ended` is the context's error then, and `last` is the variable `err`.
status_rounds : Error → Option Error → List (Result SealStatus) → Result SealStatus
status_rounds ended none [] = err ended
status_rounds ended (some e) [] =
    err (wrapped "timeout trying to check seal status, last attempt error" e)
status_rounds ended last (ok s ∷ answers) = ok s
status_rounds ended last (err e ∷ answers) = status_rounds ended (some e) answers

unfoldable pub status : Error → List (Result SealStatus) → Result SealStatus
unfolding status_rounds
status ended answers = status_rounds ended none answers

-- What `SealStatus` returns: either part may be nil.
abbrev pub Answer : Type 0
Answer = Option SealStatus × Option Error

-- `resp != nil && !resp.Sealed`
abbrev pub is_unsealed : Answer → Bool
is_unsealed (none, e) = false
is_unsealed (some s, e) = not s.sealed

-- `Unseal`, its loop.
unseal_rounds : Option Error → List Answer → Option Error
unseal_rounds none [] = some (message "unseal failed, last error: <nil>")
unseal_rounds (some e) [] = some (wrapped "unseal failed, last error" e)
unseal_rounds last (a ∷ answers) =
    let rest = unseal_rounds a.1 answers in if is_unsealed a then none else rest

-- `Unseal`: `first` is the answer to `UnsealWithOptions`. The result is the error.
unfoldable pub unseal : Result SealStatus → List Answer → Option Error
unfolding unseal_rounds
unseal (err e) answers = some e
unseal (ok s) answers =
    if s.sealed || not s.initialized
    then some (message "expected to get an unsealed initialized response")
    else unseal_rounds none answers

-- An `InitRequest`.
pub record InitRequest : Type 0 where
  pub secret_shares : ℕ
  pub secret_threshold : ℕ
  pub recovery_shares : ℕ
  pub recovery_threshold : ℕ

pub record InitResponse : Type 0 where
  pub keys : List String
  pub recovery_keys : List String
  pub root_token : String

abbrev pub init_request : Option Seal → InitRequest
init_request none = record {
  secret_shares = 1;
  secret_threshold = 1;
  recovery_shares = 0;
  recovery_threshold = 0;
}
init_request (some seal) = record {
  secret_shares = 1;
  secret_threshold = 1;
  recovery_shares = 1;
  recovery_threshold = 1;
}

abbrev keys_of : Option Seal → InitResponse → String × List String
keys_of none r = (r.root_token, r.keys)
keys_of (some seal) r = (r.root_token, r.recovery_keys)

-- `Initialize`, from what `Init` answers to a request.
unfoldable pub initialize :
    (InitRequest → Result InitResponse) → Option Seal → Result (String × List String)
initialize init seal = elim (init (init_request seal)) [
  | ok r ↦ ok (keys_of seal r)
  | err e ↦ err e
]

pub data Event : Type 0 where
  -- the path and the type
  mount : String → String → Event
  list_mounts : Event
  write_key : String → Event
  put_policy : String → String → Event
  -- the policies of the token
  create_token : List String → Event

-- The Vault server, by its answers; `list_mounts` gives the type of each path.
pub record Api : Type 0 where
  pub address : String
  pub mount : List Event → Result (Unit {0})
  pub list_mounts : List Event → Result (Dict String)
  pub write_key : String → List Event → Result (Unit {0})
  pub put_policy : List Event → Result (Unit {0})
  pub create_token : List Event → Result String

-- The loop over the mounts.
unfoldable pub found_transit : Dict String → Bool
found_transit [] = false
found_transit ((path, type) ∷ mounts) =
    let rest = found_transit mounts in
    if str_eq type "transit" && str_eq path "transit/" then true else rest

-- `err` is the error of `Mount`, which is returned unless the engine is there already.
abbrev check_mounts : Api → Error → Exec Event (Unit {0})
check_mounts api e h = elim (api.list_mounts h) [
  | err _ ↦ (err e, list_mounts ∷ h)
  | ok mounts ↦
      (if found_transit mounts then (ok tt, list_mounts ∷ h) else (err e, list_mounts ∷ h))
]

unfoldable pub mount_transit : Api → Exec Event (Unit {0})
mount_transit api h =
    let h' = mount "transit" "transit" ∷ h in
    elim (api.mount h) [ ok _ ↦ (ok tt, h') | err e ↦ check_mounts api e h' ]

-- The policy that lets a client use one key.
abbrev pub key_policy : String → String
key_policy unique_id =
    "\npath \"transit/encrypt/"
    <> (unique_id
        <> ("\" {\n  capabilities = [\"update\"]\n}\n\npath \"transit/decrypt/"
            <> (unique_id <> "\" {\n  capabilities = [\"update\"]\n}\n")))

abbrev pub seal_settings : String → String → String → Dict String
seal_settings address token unique_id =
    ("address", address)
    ∷ ("token", token)
    ∷ ("key_name", unique_id)
    ∷ ("mount_path", "transit/")
    ∷ ("tls_skip_verify", "true")
    ∷ []

-- `NewSealSource`, after the mount
unfoldable pub make_seal : Api → String → Exec Event Seal
make_seal api unique_id = do
  call (write_key ("transit/keys/" <> unique_id)) (api.write_key ("transit/keys/" <> unique_id))
  call (put_policy "transit-seal-client" (key_policy unique_id)) api.put_policy
  token ← call (create_token ("transit-seal-client" ∷ [])) api.create_token
  pure (record { type = "transit"; config = seal_settings api.address token unique_id })

-- `NewSealSource`
unfoldable pub new_seal_source : Api → String → Exec Event Seal
new_seal_source api unique_id = mount_transit api >> make_seal api unique_id
