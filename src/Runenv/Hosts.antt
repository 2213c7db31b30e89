-- ===== src/Runenv/Hosts.antt =====
-- The addresses of `DockerEnv`: the last byte of the network's address is replaced by a counter.
use yurt.Prelude.{
  ℕ, zero, suc, ◌+◌, ◌%◌, ◌<◌, ◌≡◌, ◌∙◌, sym, ap, ◌↔◌, some, List, [], ◌∷◌, arith, ◌<>◌,
}
use yurt.Prelude.{
  add_int32, int32_half, length, get_elem?, trailing_number, trailing_number-dot, decimal,
}
use yurt.Types.{Node}
use yurt.Runenv.Counters.{
  Ip4, DockerCounters, docker_counters, docker_alloc, docker_alloc_all, Request, ip_string,
}

host_at :
    (network : Ip4) (c : DockerCounters) (requests : List Request) (i : ℕ) (n : Node)
    → c.cur_ip_oct + length requests < int32_half
    → get_elem? (docker_alloc_all network c requests).0 i ≡ some n
    → n.host ≡ ip_string (record network { d = (c.cur_ip_oct + 1 + i) % 256 })
unfolding docker_alloc_all docker_alloc
host_at network c [] i n b h = ground arith
host_at network c ((base, p) ∷ requests) zero n b h =
    let e : add_int32 c.cur_ip_oct 1 % 256 ≡ (c.cur_ip_oct + 1 + 0) % 256 = omega arith in
    ground (arith, e)
host_at network c ((base, p) ∷ requests) (suc i) n b h =
    let e : add_int32 c.cur_ip_oct 1 + 1 + i ≡ c.cur_ip_oct + 1 + suc i = omega arith in
    ground
      (arith, e, host_at network (docker_alloc network c base p).1 requests i n (omega arith) h)

ip_string_last :
    (network : Ip4) (k l : ℕ)
    → ip_string (record network { d = k }) ≡ ip_string (record network { d = l })
    → k ≡ l
ip_string_last network k l h =
    let front = decimal network.a <> ("." <> (decimal network.b <> ("." <> decimal network.c))) in
    sym (trailing_number-dot front k) ∙ ap trailing_number h ∙ trailing_number-dot front l

-- In the nodes that a new Docker environment hands out, as long as its counter does not overflow, two
-- have the same address exactly when their positions agree modulo 256.
pub docker_hosts_repeat :
    (network : Ip4) (requests : List Request) (i j : ℕ) (m n : Node)
    → 1 + length requests < int32_half
    → get_elem? (docker_alloc_all network docker_counters requests).0 i ≡ some m
    → get_elem? (docker_alloc_all network docker_counters requests).0 j ≡ some n
    → (m.host ≡ n.host) ↔ (i % 256 ≡ j % 256)
docker_hosts_repeat network requests i j m n b hi hj =
    let p = host_at network docker_counters requests i m b hi in
    let q = host_at network docker_counters requests j n b hj in
    (
      λ e.
          omega
            (arith, ip_string_last network ((1 + 1 + i) % 256) ((1 + 1 + j) % 256) (sym p ∙ e ∙ q)),
      λ e.
          let e' : (1 + 1 + i) % 256 ≡ (1 + 1 + j) % 256 = omega arith in
          p ∙ ap (λ k. ip_string (record network { d = k })) e' ∙ sym q,
    )
