-- ===== src/Docker/Container.antt =====
-- `Start`, `CleanupContainer`, `Wait` and `ContainerIP`.
pub mod Leftovers
use yurt.Prelude.{
  ℕ, zero, String, ◌<>◌, Bool, List, [], ◌∷◌, Option, none, some, Dict, lookup, str_eq, show_int,
  if◌then◌else◌,
}
use yurt.Effects.{Error, Result, ok, err, wrapped, message}
use yurt.Effects.Calls.{Exec, pure, raise, call, ◌>>=◌, ◌>>◌}

-- How a container is joined to a network.
pub data NetMode : Type 0 where
  no_network host_network : NetMode
  endpoint : String → Option String → NetMode

-- Of `RunOptions` and of the container's configuration, what the program sets.
pub record RunOptions : Type 0 where
  pub image : String
  pub entrypoint : List String
  pub cmd : List String
  pub env : List String
  pub exposed_ports : List String
  pub container_name : String
  pub net_name : String
  pub ip : String
  pub copy_from_to : Dict String

-- Of a `ContainerJSON`: its ID, its address in each network, and the host port of each port.
pub record ContainerJson : Type 0 where
  pub id : String
  pub networks : Dict String
  pub ports : Dict (List String)

pub data Event : Type 0 where
  pull : String → Event
  create : RunOptions → NetMode → Event
  copy_to : String → String → String → Event
  remove : String → Event
  start : String → Event
  inspect : String → Event
  stop : String → Event
  -- the two goroutines that follow the logs and wait for the end of the context
  watch : String → Event

-- The answers of the Docker API; `copy_to` also stands for the packing of the source.
pub record Api : Type 0 where
  pub create : List Event → Result String
  pub copy_to : String → String → String → List Event → Result (Unit {0})
  pub start : String → List Event → Result (Unit {0})
  pub inspect : String → List Event → Result ContainerJson
  pub remove : String → List Event → Result (Unit {0})
  pub stop : String → List Event → Result (Unit {0})

-- The `switch` over the network's name.
unfoldable pub net_mode : String → String → NetMode
net_mode name ip =
    if str_eq name ""
    then no_network
    else if str_eq name "host"
    then host_network
    else endpoint name (if str_eq ip "" then none else some ip)

-- An event whose answer is not looked at.
abbrev note : Event → Exec Event (Unit {0})
note e = call e (λ h. ok tt)

abbrev wrap_error {ℓ} : {A : Type ℓ} → String → Result A → Result A
wrap_error text (ok a) = ok a
wrap_error text (err e) = err (wrapped text e)

-- `for from, to := range opts.CopyFromTo`: an error removes the container.
unfoldable pub copy_all : Api → String → Dict String → Exec Event (Unit {0})
copy_all api id [] h = (ok tt, h)
copy_all api id ((from, to) ∷ copies) h = elim (api.copy_to id from to h) [
  | ok _ ↦ copy_all api id copies (copy_to id from to ∷ h)
  | err e ↦ (err e, remove id ∷ copy_to id from to ∷ h)
]

-- `Start`
unfoldable pub run : Api → RunOptions → Exec Event ContainerJson
unfolding net_mode
run api opts = do
  note (pull opts.image)
  id ←
      call (create opts (net_mode opts.net_name opts.ip))
        (λ h. wrap_error "container create failed" (api.create h))
  copy_all api id opts.copy_from_to
  call (start id) (λ h. wrap_error "container start failed" (api.start id h))
  c ← call (inspect id) (api.inspect id)
  note (watch c.id)
  pure c

-- `CleanupContainer`
unfoldable pub cleanup : Api → String → Exec Event (Unit {0})
cleanup api id = do call (stop id) (api.stop id); call (remove id) (api.remove id)

-- `Wait`, from what arrives first: an error, or the exit status.
pub data Exit : Type 0 where
  failure : Option Error → Exit
  status : ℕ → Exit

unfoldable pub wait : Exit → Option Error
wait (failure e) = e
wait (status zero) = none
wait (status code) = some (message ("container exited with " <> show_int code))

-- `ContainerIP`
unfoldable pub container_ip : ContainerJson → String → Result String
container_ip c net_name = elim (lookup net_name c.networks) [
  | none ↦ err (message "missing private network")
  | some ip ↦ ok ip
]
