-- ===== src/Lifecycle.antt =====
-- How OmniContext and AggContext start and stop their master threads: StartMaster and StopMaster of
-- omnireduce/context.cpp and of omnireduce/aggcontext.cpp, and step 1 of master and aggmaster of
-- omnireduce/omnireduce.cpp, which opens the sockets. What the system answers is an argument.
use omnireduce.Base.{
  ℕ, zero, suc, ◌+◌, true, false, List, [], ◌∷◌, Option, ℤ, if◌then◌else◌, update,
}
use Prim.Native.String.{String}
use omnireduce.Outcome.{Failure, Outcome, ok, ◌>>=◌, ◌>>◌, guard}
use omnireduce.Params.{Params}
use omnireduce.ConData.{is_zero, is_negative}
use omnireduce.Setup.{core_of, accept_all}

-- The core of the master thread, or none; wait_master_ready follows.
unfoldable pub start_master : (created : ℤ) → (core_id : ℤ) → Outcome (Option ℕ)
unfolding core_of
start_master created core_id = do
  guard (is_zero created) Failure.thread_failed
  ok (core_of core_id)

-- force_quit is set; `ret` is what master or aggmaster returned.
unfoldable pub stop_master : (joined ret : ℤ) → Outcome (Unit {0})
stop_master joined ret = do
  guard (is_zero joined) Failure.join_failed
  guard (if is_negative ret then false else true) Failure.master_failed

-- The addresses to which getaddrinfo resolves a name: what socket and connect answer for each.
pub record Address : Type 0 where
  pub socket : ℤ
  pub connect : ℤ

-- The socket after the loop over the addresses of one aggregator; `sockfd` is the one before.
unfoldable pub connect_addresses : List Address → (sockfd : ℤ) → Outcome ℤ
connect_addresses [] sockfd = ok sockfd
connect_addresses (a ∷ addresses) sockfd =
    let rest = connect_addresses addresses a.socket in
    if is_negative a.socket
    then rest
    else (guard (is_zero a.connect) Failure.connect_failed >> rest)

-- socks of a worker, for aggregators `i` to `i + n - 1`.
unfoldable pub connect_all :
    (resolve : ℕ → ℤ × List Address) → (i n : ℕ) → (socks : ℕ → ℤ) → Outcome (ℕ → ℤ)
unfolding connect_addresses
connect_all resolve i zero socks = ok socks
connect_all resolve i (suc n) socks = do
  guard (if is_negative (resolve i).0 then false else true) Failure.resolve_failed
  sockfd ← connect_addresses (resolve i).1 (resolve i).0
  connect_all resolve (i + 1) n (update socks i sockfd)

-- An address of the own host: what socket and bind answer, and the connections that are accepted on it.
pub record Listener : Type 0 where
  pub socket : ℤ
  pub bind : ℤ
  pub connections : List (String × ℕ)

-- socks of an aggregator.
unfoldable pub listen_all : Params → List Listener → (ℕ → ℕ) → Outcome (ℕ → ℕ)
unfolding accept_all
listen_all p [] socks = ok socks
listen_all p (l ∷ listeners) socks =
    if is_negative l.socket
    then listen_all p listeners socks
    else (guard (is_zero l.bind) Failure.bind_failed
        >> listen_all p listeners (accept_all p l.connections socks))
