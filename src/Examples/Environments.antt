-- ===== src/Examples/Environments.antt =====
-- runenv/runenv.go and prometheus/prometheus.go: environments that are made, and Prometheus that is
-- asked until it has targets.
use yurt.Prelude.{String, ◌≡◌, refl, List, [], ◌∷◌, none, some}
use yurt.Effects.{ok, err, external, panic, unhealthy_targets}
use yurt.Docker.Network.{setup_network}
use yurt.Runenv.Counters.{exec_counters, docker_counters}
use yurt.Runenv.Creating.{
  Event, Answers, new_exec_env, new_docker_env, ExecEnv, DockerEnv, temp_dir, abs, remove_when_done,
}
use yurt.Commands.Prometheus.Health.{health_check}

-- Docker has no networks at first and makes those that it is asked for.
abbrev answers : List String → Answers
answers subnets = record {
  temp_dir = λ h. ok "/tmp/yurt-env1";
  abs = λ path h. ok path;
  docker_client = λ h. ok tt;
  random = λ n h. 7;
  api = λ h. record {
    list = λ t. ok [];
    remove = λ id t. ok tt;
    create = λ name cidr t. ok "id";
    inspect = λ id t. ok (record { id = id; name = "net"; subnets = subnets });
  };
  sock_addr = λ subnet. ok (record { text = subnet });
}

-- Without a working directory, the new one is removed at the end.
exec_env_made : new_exec_env (answers []) "" 8000 [] ≡ (
  ok (record { work_dir = "/tmp/yurt-env1"; counters = exec_counters 8000 }),
  remove_when_done "/tmp/yurt-env1" ∷ abs "/tmp/yurt-env1" ∷ temp_dir ∷ [],
)
unfolding new_exec_env yurt.Runenv.Creating.new_base_env
exec_env_made = refl

docker_env_made :
    (new_docker_env (answers ("10.7.7.0/24" ∷ [])) "net" "/w" "" []).0
    ≡ ok (record {
      work_dir = "/w";
      net_conf = record {
        network = some (record { text = "10.7.7.0/24" });
        docker_net_name = "net";
      };
      counters = docker_counters;
    })
unfolding new_docker_env yurt.Runenv.Creating.new_base_env yurt.Runenv.Creating.cidr_or_random
    setup_network
docker_env_made = refl

-- A network without a subnet.
docker_env_panics :
    (new_docker_env (answers []) "net" "/w" "10.1.1.0/24" []).0 ≡ err (panic "index out of range")
unfolding new_docker_env yurt.Runenv.Creating.new_base_env yurt.Runenv.Creating.cidr_or_random
    setup_network
docker_env_panics = refl

-- Prometheus has its targets in the second round.
health_found :
    health_check
      (ok (record { active = 0; dropped = 0 }) ∷ ok (record { active = 2; dropped = 0 }) ∷ [])
      none
    ≡ none
unfolding health_check yurt.Runner.Polling.poll yurt.Commands.Prometheus.Health.targets_verdict
health_found = refl

health_missed :
    health_check (ok (record { active = 1; dropped = 3 }) ∷ []) (some (external "deadline"))
    ≡ some (unhealthy_targets 1 3)
unfolding health_check yurt.Runner.Polling.poll yurt.Commands.Prometheus.Health.targets_verdict
health_missed = refl
