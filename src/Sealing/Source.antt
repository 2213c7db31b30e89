-- ===== src/Sealing/Source.antt =====
-- The server that keeps the unsealing key of others.
use yurt.Prelude.{String, ◌<>◌, ◌≡◌, refl, ◌⊎◌, inl, inr, List, [], ◌∷◌, Dict, true, arith}
use yurt.Effects.{Error, Result, ok, err}
use yurt.Effects.Calls.{bind-eq-ok}
use yurt.Commands.Vault.{Seal}
use yurt.Sealing.{
  Event, Api, mount, list_mounts, write_key, put_policy, create_token, found_transit, mount_transit,
  key_policy, seal_settings, make_seal, new_seal_source,
}

-- The engine was mounted, or it could not be and is listed as mounted already.
abbrev pub Mounted : Api → List Event → List Event → Type 0
Mounted api h h' =
    ((api.mount h ≡ ok tt) × (h' ≡ mount "transit" "transit" ∷ h))
    ⊎ ((mounts : Dict String) × (api.list_mounts (mount "transit" "transit" ∷ h) ≡ ok mounts)
        × (found_transit mounts ≡ true)
        × (h' ≡ list_mounts ∷ mount "transit" "transit" ∷ h))

mount_transit_ok :
    (api : Api) (h h' : List Event) → mount_transit api h ≡ (ok tt, h') → Mounted api h h'
unfolding mount_transit
mount_transit_ok api h h' e = by_mount (api.mount h) refl
  where
    by_list :
        (x : Error) (l : Result (Dict String))
        → api.mount h ≡ err x
        → api.list_mounts (mount "transit" "transit" ∷ h) ≡ l
        → Mounted api h h'
    by_list x (ok mounts) m l = inr (mounts, l, ground arith, ground arith)
    by_list x (err y) m l = absurd (ground arith)

    by_mount : (r : Result (Unit {0})) → api.mount h ≡ r → Mounted api h h'
    by_mount (ok u) m = inl (m, ground arith)
    by_mount (err x) m = by_list x (api.list_mounts (mount "transit" "transit" ∷ h)) m refl

make_seal_ok :
    (api : Api) (unique_id : String) (h h' : List Event) (seal : Seal)
    → make_seal api unique_id h ≡ (ok seal, h')
    → (h'
        ≡ create_token ("transit-seal-client" ∷ [])
          ∷ put_policy "transit-seal-client" (key_policy unique_id)
          ∷ write_key ("transit/keys/" <> unique_id)
          ∷ h)
      × ((token : String) × (seal.config ≡ seal_settings api.address token unique_id)
          × (api.create_token (
                put_policy "transit-seal-client" (key_policy unique_id)
                ∷ write_key ("transit/keys/" <> unique_id)
                ∷ h)
              ≡ ok token))
unfolding make_seal
make_seal_ok api unique_id h h' seal e = ground arith

-- When a seal source is made, the transit engine was mounted or is listed as mounted already; the
-- key was written, the policy for this key was put under the name that the new token carries, and
-- the token was created, in that order and after the mount. The seal names the server, the key and
-- the token that was created.
pub new_seal_source_ok :
    (api : Api) (unique_id : String) (h h' : List Event) (seal : Seal)
    → new_seal_source api unique_id h ≡ (ok seal, h')
    → (h1 : List Event) × Mounted api h h1
      × (h'
          ≡ create_token ("transit-seal-client" ∷ [])
            ∷ put_policy "transit-seal-client" (key_policy unique_id)
            ∷ write_key ("transit/keys/" <> unique_id)
            ∷ h1)
      × ((token : String) × (seal.config ≡ seal_settings api.address token unique_id)
          × (api.create_token (
                put_policy "transit-seal-client" (key_policy unique_id)
                ∷ write_key ("transit/keys/" <> unique_id)
                ∷ h1)
              ≡ ok token))
unfolding new_seal_source
new_seal_source_ok api unique_id h h' seal e =
    let (_, h1, mounted, rest) =
      bind-eq-ok (mount_transit api) (λ _. make_seal api unique_id) h e in
    let made = make_seal_ok api unique_id h1 h' seal rest in
    (h1, mount_transit_ok api h h1 mounted, made.0, made.1)
