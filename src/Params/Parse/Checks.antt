-- ===== src/Params/Parse/Checks.antt =====
-- What a process may rely on once parse_parameters has returned.
use Prim.Native.String.{String}
use omnireduce.Base.{
  sym, Bool, true, false, ==_iff, if◌then◌else◌, ◌*◌, ◌/◌, ◌≡◌, ◌≢◌, ◌⊎◌, refl, List, [], ◌∷◌,
  Option, none, some, ℤ, ◌==◌, length, get_or, u32, arith,
}
use omnireduce.Outcome.{Failure, Outcome, ok, failed, divide, >>=-ok, divide-eq, ok-injective}
use omnireduce.Params.{
  Params, set_inf_offset, set_num_slots_per_thread, num_blocks_per_thread, queue_depth_default,
  inf_offset_at,
}
use omnireduce.Params.Parse.{
  Options, copy_string, copy_strings, set_worker_ips, set_aggregator_ips, set_worker_core_id,
  set_aggregator_core_id, set_ib_hca, read_cores, set_cores, set_hosts, set_derived, set_device,
  find_config, check_memory, set_sizes, set_rest, parse_parameters,
}

copy_string-eq : (s t : String) → copy_string s ≡ ok t → t ≡ s
unfolding copy_string
copy_string-eq s t h = ground arith

copy_strings-eq : (ss ts : List String) → copy_strings ss ≡ ok ts → ts ≡ ss
unfolding copy_strings
copy_strings-eq [] ts h = cc
copy_strings-eq (s ∷ ss) ts h =
    let (t, e, h') = >>=-ok (copy_string s) _ h in
    let (us, e', h'') = >>=-ok (copy_strings ss) _ h' in
    ground (arith, copy_strings-eq ss us e', copy_string-eq s t e)

pub record IsConfigured (split : String → List String) (o : Options) (p : Params) : Type 0 where
  pub threads : p.num_worker_threads ≡ o.num_threads
  pub worker_core_count : length (split o.worker_cores) ≡ p.num_worker_threads
  pub aggregator_core_count : length (split o.aggregator_cores) ≡ p.num_worker_threads
  pub workers : p.num_workers ≡ o.num_workers
  pub worker_ip_count : length (split o.worker_ips) ≡ p.num_workers
  pub worker_ip : p.worker_ipaddr ≡ λ i. get_or (split o.worker_ips) i ""
  pub aggregators : p.num_aggregators ≡ o.num_aggregators
  pub aggregator_ip_count : length (split o.aggregator_ips) ≡ p.num_aggregators
  pub aggregator_ip : p.aggregator_ipaddr ≡ λ i. get_or (split o.aggregator_ips) i ""
  pub mode : p.direct_memory ≡ o.direct_memory
  pub message : p.message_size ≡ o.message_size
  pub block : p.block_size ≡ o.block_size
  pub direct : p.direct_memory ≡ 1 → p.message_size ≡ p.block_size
  pub block_pos : p.block_size ≢ 0
  pub slots_pos : p.num_slots_per_thread ≢ 0
  pub slots :
      p.num_slots_per_thread ≡ u32 (8 * p.num_qps_per_aggregator_per_thread * p.num_aggregators)
  pub prepost : p.prepost_recv_num ≡ queue_depth_default / p.num_slots_per_thread
  pub sentinels : p.inf_offset ≡ inf_offset_at p.block_size (num_blocks_per_thread p)

find_config-IsFirst :
    (read_config : String → Option Options) (o : Options)
    → find_config read_config ≡ ok o
    → (read_config "/etc/omnireduce.cfg" ≡ some o)
      ⊎ ((read_config "/etc/omnireduce.cfg" ≡ none) × (read_config "omnireduce.cfg" ≡ some o))
unfolding find_config
find_config-IsFirst read_config o h = ground arith

check_memory-eq :
    (o o' : Options)
    → check_memory o ≡ ok o'
    → (o' ≡ o) × (o.direct_memory ≡ 1 → o.message_size ≡ o.block_size)
unfolding check_memory
check_memory-eq o o' h = (ground arith, λ d. ground arith)

if-eq-ok {ℓ} :
    {A : Type ℓ} (b : Bool) (m : Outcome A) (e : Failure) {a : A}
    → (if b then m else failed e) ≡ ok a
    → (b ≡ true) × (m ≡ ok a)
if-eq-ok true m e h = (refl, h)
if-eq-ok false m e h = cc

set_worker_ips-eq :
    (split : String → List String) (ips : String) (p q : Params)
    → set_worker_ips split ips p ≡ ok q
    → (length (split ips) ≡ p.num_workers)
      × (record p { worker_ipaddr = λ i. get_or (split ips) i "" } ≡ q)
unfolding set_worker_ips
set_worker_ips-eq split ips p q h =
    let (count, run) = if-eq-ok (p.num_workers == length (split ips)) _ _ h in
    let (copies, made, e) = >>=-ok (copy_strings (split ips)) _ run in
    (sym ((==_iff _ _).0 count), rw (← copy_strings-eq (split ips) copies made) (ok-injective e))

set_aggregator_ips-eq :
    (split : String → List String) (ips : String) (p q : Params)
    → set_aggregator_ips split ips p ≡ ok q
    → (length (split ips) ≡ p.num_aggregators)
      × (record p { aggregator_ipaddr = λ i. get_or (split ips) i "" } ≡ q)
unfolding set_aggregator_ips
set_aggregator_ips-eq split ips p q h =
    let (count, run) = if-eq-ok (p.num_aggregators == length (split ips)) _ _ h in
    let (copies, made, e) = >>=-ok (copy_strings (split ips)) _ run in
    (sym ((==_iff _ _).0 count), rw (← copy_strings-eq (split ips) copies made) (ok-injective e))

set_worker_core_id-eq :
    (split : String → List String) (stoi : String → Option ℤ) (cores : String) (p q : Params)
    → set_worker_core_id split stoi cores p ≡ ok q
    → (length (split cores) ≡ p.num_worker_threads)
      × (record p { worker_cores = q.worker_cores } ≡ q)
unfolding set_worker_core_id
set_worker_core_id-eq split stoi cores p q h =
    let (count, run) = if-eq-ok (p.num_worker_threads == length (split cores)) _ _ h in
    let (ids, made, e) = >>=-ok (read_cores stoi (split cores)) _ run in
    (sym ((==_iff _ _).0 count), rw (← ok-injective e))

set_aggregator_core_id-eq :
    (split : String → List String) (stoi : String → Option ℤ) (cores : String) (p q : Params)
    → set_aggregator_core_id split stoi cores p ≡ ok q
    → (length (split cores) ≡ p.num_worker_threads)
      × (record p { aggregator_cores = q.aggregator_cores } ≡ q)
unfolding set_aggregator_core_id
set_aggregator_core_id-eq split stoi cores p q h =
    let (count, run) = if-eq-ok (p.num_worker_threads == length (split cores)) _ _ h in
    let (ids, made, e) = >>=-ok (read_cores stoi (split cores)) _ run in
    (sym ((==_iff _ _).0 count), rw (← ok-injective e))

set_ib_hca-eq :
    (name : String) (p q : Params) → set_ib_hca name p ≡ ok q → record p { ib_hca = name } ≡ q
unfolding set_ib_hca
set_ib_hca-eq name p q h =
    let (copy, made, e) = >>=-ok (copy_string name) _ h in
    rw (← copy_string-eq name copy made) (ok-injective e)

set_cores-eq :
    (split : String → List String) (stoi : String → Option ℤ) (o : Options) (p q : Params)
    → set_cores split stoi o p ≡ ok q
    → (length (split o.worker_cores) ≡ o.num_threads)
      × (length (split o.aggregator_cores) ≡ o.num_threads)
      × (record p {
        num_worker_threads = o.num_threads;
        worker_cores = q.worker_cores;
        aggregator_cores = q.aggregator_cores;
      }
          ≡ q)
unfolding set_cores
set_cores-eq split stoi o p q h =
    let (r, first, second) = >>=-ok (set_worker_core_id split stoi o.worker_cores _) _ h in
    let (n, e) = set_worker_core_id-eq split stoi o.worker_cores _ r first in
    let (n', e') = set_aggregator_core_id-eq split stoi o.aggregator_cores r q second in
    (ground arith, ground arith, ground arith)

set_hosts-eq :
    (split : String → List String) (o : Options) (p q : Params)
    → set_hosts split o p ≡ ok q
    → (length (split o.worker_ips) ≡ o.num_workers)
      × (length (split o.aggregator_ips) ≡ o.num_aggregators)
      × (record (set_sizes o p) {
        worker_ipaddr = λ i. get_or (split o.worker_ips) i "";
        aggregator_ipaddr = λ i. get_or (split o.aggregator_ips) i "";
      }
          ≡ q)
unfolding set_hosts
set_hosts-eq split o p q h =
    let (r, first, second) = >>=-ok (set_worker_ips split o.worker_ips _) _ h in
    let (n, e) = set_worker_ips-eq split o.worker_ips _ r first in
    let (n', e') = set_aggregator_ips-eq split o.aggregator_ips r q second in
    (ground arith, ground arith, ground arith)

set_derived-eq :
    (o : Options) (p q : Params)
    → set_derived o p ≡ ok q
    → (o.block_size ≢ 0)
      × (q.num_slots_per_thread ≢ 0)
      × (record p {
        num_slots_per_thread = u32 (8 * p.num_qps_per_aggregator_per_thread * p.num_aggregators);
        prepost_recv_num = queue_depth_default / q.num_slots_per_thread;
        inf_offset = inf_offset_at p.block_size (num_blocks_per_thread q);
      }
          ≡ q)
unfolding set_derived set_num_slots_per_thread set_inf_offset num_blocks_per_thread
set_derived-eq o p q h =
    let (m, e, h') = >>=-ok (divide o.message_size o.block_size) _ h in
    let (n, e', h'') = >>=-ok (divide queue_depth_default _) _ h' in
    let s = divide-eq o.message_size o.block_size m e in
    let s' = divide-eq queue_depth_default _ n e' in
    let t = ok-injective h'' in (ground arith, ground arith, ground arith)

set_device-eq :
    (o : Options) (p q : Params)
    → set_device o p ≡ ok q
    → record (set_rest o p) { ib_hca = o.ib_hca; threshold = o.threshold; tcp_port = o.tcp_port }
      ≡ q
unfolding set_device
set_device-eq o p q h =
    let (r, e, h') = >>=-ok (set_ib_hca o.ib_hca _) _ h in
    ground (arith, set_ib_hca-eq o.ib_hca _ r e)

module _ (split : String → List String) (stoi : String → Option ℤ) (o : Options)
    (initial p1 p2 p3 p : Params) (cores : set_cores split stoi o initial ≡ ok p1)
    (hosts : set_hosts split o p1 ≡ ok p2) (derived : set_derived o p2 ≡ ok p3)
    (device : set_device o p3 ≡ ok p)
    (direct : o.direct_memory ≡ 1 → o.message_size ≡ o.block_size) where
  stages-IsConfigured : IsConfigured split o p
  unfolding set_sizes set_rest num_blocks_per_thread
  stages-IsConfigured =
      let a = set_cores-eq split stoi o initial p1 cores in
      let b = set_hosts-eq split o p1 p2 hosts in
      let c = set_derived-eq o p2 p3 derived in
      let d = set_device-eq o p3 p device in
      record {
        threads = ground arith;
        worker_core_count = ground arith;
        aggregator_core_count = ground arith;
        workers = ground arith;
        worker_ip_count = ground arith;
        worker_ip = ground arith;
        aggregators = ground arith;
        aggregator_ip_count = ground arith;
        aggregator_ip = ground arith;
        mode = ground arith;
        message = ground arith;
        block = ground arith;
        direct = λ on. ground arith;
        block_pos = ground arith;
        slots_pos = ground arith;
        slots = ground arith;
        prepost = ground arith;
        sentinels = ground arith;
      }

module _ (read_config : String → Option Options) (split : String → List String)
    (stoi : String → Option ℤ) (initial : Params) where
  -- When parse_parameters returns, the options are those of /etc/omnireduce.cfg, or those of
  -- omnireduce.cfg and the other is not found; the counts of hosts and cores agree with the
  -- lists, the divisors are not 0, message size and block size are equal if direct_memory is
  -- 1, and these sizes, direct_memory, the hosts and the derived values are those of the
  -- options.
  pub parse_parameters-IsConfigured :
      (p : Params)
      → parse_parameters read_config split stoi initial ≡ ok p
      → (o : Options) × ((read_config "/etc/omnireduce.cfg" ≡ some o)
          ⊎ ((read_config "/etc/omnireduce.cfg" ≡ none) × (read_config "omnireduce.cfg" ≡ some o)))
        × IsConfigured split o p
  unfolding parse_parameters
  parse_parameters-IsConfigured p h =
      let (found, e0, h0) = >>=-ok (find_config read_config) _ h in
      let (o, e1, h1) = >>=-ok (check_memory found) _ h0 in
      let (p1, e2, h2) = >>=-ok (set_cores split stoi o initial) _ h1 in
      let (p2, e3, h3) = >>=-ok (set_hosts split o p1) _ h2 in
      let (p3, e4, h4) = >>=-ok (set_derived o p2) _ h3 in
      let (same, direct) = check_memory-eq found o e1 in
      (
        o,
        find_config-IsFirst read_config o (rw same e0),
        stages-IsConfigured split stoi o initial p1 p2 p3 p e2 e3 e4 h4 (rw same direct),
      )
