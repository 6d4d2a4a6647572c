-- ===== src/Examples/Clusters.antt =====
-- Two workers and two aggregators that set up their connections.
use text.Mathlib.TextEquality.{eq_iff}
use omnireduce.Base.{
  ℕ, zero, suc, ◌+◌, ◌%◌, ◌^◌, ◌≤◌, ◌<◌, ◌≡◌, ◌⊎◌, refl, sym, true, false, update, arith, inl, inr,
  List, [], ◌∷◌, some, none, ℤ, pos, negsuc,
}
use omnireduce.Outcome.{ok}
use omnireduce.Socket.{ReadResult, sock_sync_data}
use omnireduce.Socket.Reads.{Ended, sock_sync_data-result}
use omnireduce.ConData.{
  ByteOrder, ConData, RemoteData, Host, exchange, master_con_data, aggmaster_con_data,
}
use omnireduce.ConData.Fields.{IsByteOrder, IsHost}
use omnireduce.ConData.Agreement.{Agrees, exchange-Agrees}
use omnireduce.Setup.{System, Running, master, aggmaster, accept_all}
use omnireduce.Setup.Threads.{Willing}
use omnireduce.Setup.Cluster.{IsSized}
use omnireduce.Setup.Paired.{Hosts, IsCluster, IsPaired, master-aggmaster}
use omnireduce.Setup.Accept.{Apart, connections, accept_all-Occurs}
use omnireduce.Examples.Calls.{params}

-- A read that fails after two of four bytes.
abbrev broken : List ReadResult
broken = ReadResult.got (7 ∷ 8 ∷ []) ∷ ReadResult.error ∷ []

abbrev left_behind : ℕ → ℕ
left_behind = update (update (λ i. 0) 0 7) 1 8

breaks : sock_sync_data 4 (pos 4) broken (λ i. 0) ≡ some (negsuc 0, left_behind)
unfolding sock_sync_data
breaks = refl

sock_sync_data-result_example :
    (((n : ℕ) × (pos 4 ≡ pos n) × ((n ≡ 0) ⊎ (4 ≤ n)))
      × Ended 4 0 broken (λ i. 0) left_behind (negsuc 0))
    ⊎ ((negsuc 0 ≡ pos 4)
        × (left_behind ≡ λ i. 0)
        × ((n : ℕ) × ((pos 4 ≡ negsuc n) ⊎ ((pos 4 ≡ pos (suc n)) × (suc n < 4)))))
sock_sync_data-result_example =
    sock_sync_data-result 4 (pos 4) broken (λ i. 0) left_behind (negsuc 0) breaks

true-ne-false : true ≡ false → ⊥
true-ne-false h = cc

params-Apart : Apart params
params-Apart zero zero low low' same = refl
params-Apart zero (suc w) low low' same = absurd (true-ne-false (sym ((eq_iff "a" "b").1 same)))
params-Apart (suc v) zero low low' same = absurd (true-ne-false (sym ((eq_iff "b" "a").1 same)))
params-Apart (suc v) (suc w) low low' same = omega arith

accept_all-Occurs_example :
    accept_all params (connections params (λ w. w + 5) (1 ∷ 0 ∷ [])) (λ w. 0) 0 ≡ 0 + 5
accept_all-Occurs_example =
    accept_all-Occurs params (λ w. w + 5) 0 (omega arith) params-Apart (1 ∷ 0 ∷ []) (λ w. 0)
      (λ w m. ground arith) (inr (inl refl))

-- Conversions on a machine that has the order of the network.
abbrev order : ByteOrder
order = record { htonl = λ x. x; ntohl = λ x. x; htons = λ x. x; ntohs = λ x. x; bswap_64 = λ x. x }

order-IsByteOrder : IsByteOrder order
order-IsByteOrder = record { word = λ x low. refl; half = λ x low. refl; double = λ x low. refl }

abbrev host : ℕ → Host
host k = record {
  comm_buf = 4096;
  rkey = 7;
  qp = λ i. i % 2 ^ 32;
  qp_address = λ i. i % 2 ^ 32;
  lid = 3;
  my_gid = λ i. 0;
}

host-IsHost : (k : ℕ) → IsHost (host k)
host-IsHost k = record {
  buffer = omega arith;
  key = omega arith;
  qps = λ i. omega arith;
  addresses = λ i. omega arith;
  port = omega arith;
}

abbrev hosts : Hosts
hosts = record { worker = host; server = host; stack = λ k i. 0 }

hosts-IsCluster : IsCluster params hosts
hosts-IsCluster = record {
  workers = host-IsHost;
  servers = host-IsHost;
  worker_distinct = λ w a b low low' same. omega arith;
  server_distinct = λ w a b low low' same. omega arith;
}

params-IsSized : IsSized params
params-IsSized = record {
  some_workers = omega arith;
  some_aggregators = omega arith;
  some_qps = omega arith;
  worker_fits = omega arith;
  aggregator_fits = omega arith;
}

abbrev before : Running
before = record {
  id = 0;
  remote_props =
      λ i. record { remote_id = 0; addr = 0; rkey = 0; qp_num = λ j. 0; lid = 0; gid = λ j. 0 };
  qp_num_to_peerid = λ q. none;
  qp_calls = [];
  thread_calls = [];
}

-- A system where nothing fails, with what the peers send.
abbrev system : (ℕ → ConData) → System
system data_of = record {
  query_gid = pos 0;
  sync_data = λ i. (pos 0, data_of i);
  modify_qp = λ call. pos 0;
  sync_ready = λ i. pos 0;
  thread_create = λ i. pos 0;
}

system-Willing : (data_of : ℕ → ConData) → Willing (system data_of)
system-Willing data_of = record {
  gid = refl;
  agreed = λ call. refl;
  ready = λ i. refl;
  created = λ i. refl;
}

-- Worker 1, and the aggregator of its queue pair 2.
abbrev worker_system : System
worker_system = system (λ a. aggmaster_con_data order params (host a) 1 (λ i. 0))

abbrev server_system : ℕ → System
server_system a = system (λ w. master_con_data order params (host w) a (λ i. 0))

master-aggmaster_example :
    (r s : Running) × (master worker_system order params (host 1) before ≡ ok r)
    × (aggmaster (server_system (2 % 2 % 2)) order params (host (2 % 2 % 2)) before ≡ ok s)
    × IsPaired order params hosts 1 2 r s
unfolding omnireduce.Connection.master_mid
master-aggmaster_example =
    master-aggmaster order params hosts 1 2 worker_system (server_system (2 % 2 % 2)) before before
      order-IsByteOrder params-IsSized hosts-IsCluster (omega arith) (omega arith)
      (system-Willing _) (system-Willing _) (λ q. refl) (λ q. refl) (λ a low. refl) (λ w low. refl)

-- One exchange of worker 1 with both aggregators.
abbrev plain : ConData
plain = record {
  remote_id = 1;
  num_peers = 2;
  addr = 0;
  rkey = 0;
  qp_num = λ j. 0;
  lid = 0;
  gid = λ j. 0;
}

abbrev answers : ℕ → ℤ × ConData
answers k = (pos 0, plain)

abbrev taken : ℕ → ConData → RemoteData
taken k d = before.remote_props 0

swaps :
    exchange answers 2 taken 0 2 0 before.remote_props
    ≡ ok (1, update (update before.remote_props 0 (taken 0 plain)) 1 (taken 1 plain))
unfolding exchange
swaps = refl

exchange-Agrees_example : Agrees answers 2 1 1
exchange-Agrees_example =
    exchange-Agrees answers 2 taken 2 0 before.remote_props 1
      (update (update before.remote_props 0 (taken 0 plain)) 1 (taken 1 plain)) 1 swaps
      (omega arith)
