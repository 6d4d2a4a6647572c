-- ===== src/Params/Parse.antt =====
-- parse_parameters of omnireduce/params.cpp and the setters with checks of omnireduce/params.hpp.
-- The file system with boost::program_options, boost::split and std::stoi are parameters.
pub mod Checks
pub mod Consistency
use Prim.Native.String.{String, len}
use omnireduce.Base.{
  ℕ, ◌/◌, ◌*◌, ◌≡◌, Bool, List, [], ◌∷◌, Option, none, some, ℤ, ltb, ◌==◌, if◌then◌else◌, length,
  get_or, u32, ap,
}
use omnireduce.Outcome.{Failure, Outcome, ok, failed, ◌>>=◌, divide}
use omnireduce.Params.{
  Params, set_inf_offset, set_num_slots_per_thread, num_blocks_per_thread, queue_depth_default,
}

-- The values that po::notify stores, defaults filled in.
pub record Options : Type 0 where
  pub num_workers : ℕ
  pub num_aggregators : ℕ
  pub num_threads : ℕ
  pub worker_cores : String
  pub aggregator_cores : String
  pub buffer_size : ℕ
  pub chunk_size : ℕ
  pub bitmap_chunk_size : ℕ
  pub message_size : ℕ
  pub block_size : ℕ
  pub ib_port : ℤ
  pub gid_idx : ℤ
  pub sl : ℤ
  pub gpu_dev_id : ℕ
  pub direct_memory : ℕ
  pub adaptive_blocksize : ℕ
  pub tcp_port : ℕ
  pub worker_ips : String
  pub aggregator_ips : String
  pub threshold : ℕ
  pub ib_hca : String

-- strcpy into malloc(20*sizeof(char)), the terminator included.
unfoldable pub copy_string : String → Outcome String
copy_string s = if ltb (len s) 20 then ok s else failed Failure.string_overflow

unfoldable pub copy_strings : List String → Outcome (List String)
unfolding copy_string
copy_strings [] = ok []
copy_strings (s ∷ ss) = do t ← copy_string s; ts ← copy_strings ss; ok (t ∷ ts)

unfoldable pub read_cores : (String → Option ℤ) → List String → Outcome (List ℤ)
read_cores stoi [] = ok []
read_cores stoi (s ∷ ss) = do
  n ← elim (stoi s) [ none ↦ failed Failure.bad_number | some n ↦ ok n ]
  ns ← read_cores stoi ss
  ok (n ∷ ns)

unfoldable pub set_worker_ips : (String → List String) → String → Params → Outcome Params
set_worker_ips split ips p =
    if p.num_workers == length (split ips)
    then (do
      copies ← copy_strings (split ips)
      ok (record p { worker_ipaddr = λ i. get_or copies i "" }))
    else failed Failure.worker_number

unfoldable pub set_aggregator_ips : (String → List String) → String → Params → Outcome Params
set_aggregator_ips split ips p =
    if p.num_aggregators == length (split ips)
    then (do
      copies ← copy_strings (split ips)
      ok (record p { aggregator_ipaddr = λ i. get_or copies i "" }))
    else failed Failure.aggregator_number

unfoldable pub set_worker_core_id :
    (String → List String) → (String → Option ℤ) → String → Params → Outcome Params
set_worker_core_id split stoi cores p =
    if p.num_worker_threads == length (split cores)
    then (do
      ids ← read_cores stoi (split cores)
      ok (record p { worker_cores = λ i. get_or ids i (ℤ.pos 0) }))
    else failed Failure.core_id_count

unfoldable pub set_aggregator_core_id :
    (String → List String) → (String → Option ℤ) → String → Params → Outcome Params
set_aggregator_core_id split stoi cores p =
    if p.num_worker_threads == length (split cores)
    then (do
      ids ← read_cores stoi (split cores)
      ok (record p { aggregator_cores = λ i. get_or ids i (ℤ.pos 0) }))
    else failed Failure.core_id_count

unfoldable pub set_ib_hca : String → Params → Outcome Params
set_ib_hca name p = do copy ← copy_string name; ok (record p { ib_hca = copy })

-- The file is looked for in /etc first.
unfoldable pub find_config : (String → Option Options) → Outcome Options
find_config read_config = elim (read_config "/etc/omnireduce.cfg") [
  | some o ↦ ok o
  | none ↦ elim (read_config "omnireduce.cfg") [
    | some o ↦ ok o
    | none ↦ failed Failure.no_config_file
  ]
]

unfoldable pub check_memory : Options → Outcome Options
check_memory o =
    if o.direct_memory == 1
    then (if o.message_size == o.block_size then ok o else failed Failure.memory_mismatch)
    else ok o

-- The values that need no check.
unfoldable pub set_sizes : Options → Params → Params
set_sizes o p = record p {
  num_workers = o.num_workers;
  num_aggregators = o.num_aggregators;
  buffer_size = o.buffer_size;
  chunk_size = o.chunk_size;
  bitmap_chunk_size = o.bitmap_chunk_size;
  message_size = o.message_size;
  block_size = o.block_size;
}

unfoldable pub set_rest : Options → Params → Params
set_rest o p = record p {
  ib_port = o.ib_port;
  gid_idx = o.gid_idx;
  sl = o.sl;
  direct_memory = o.direct_memory;
  adaptive_blocksize = o.adaptive_blocksize;
  gpu_dev_id = o.gpu_dev_id;
}

unfoldable pub set_cores :
    (String → List String) → (String → Option ℤ) → Options → Params → Outcome Params
set_cores split stoi o p = do
  q ← set_worker_core_id split stoi o.worker_cores (record p { num_worker_threads = o.num_threads })
  set_aggregator_core_id split stoi o.aggregator_cores q

unfoldable pub set_hosts : (String → List String) → Options → Params → Outcome Params
unfolding set_sizes
set_hosts split o p = do
  q ← set_worker_ips split o.worker_ips (set_sizes o p)
  set_aggregator_ips split o.aggregator_ips q

-- The values that are computed: slots, posted receives and sentinels.
unfoldable pub set_derived : Options → Params → Outcome Params
set_derived o p = do
  let q = set_num_slots_per_thread p
  blocks_per_message ← divide o.message_size o.block_size
  prepost ← divide queue_depth_default q.num_slots_per_thread
  ok (set_inf_offset (num_blocks_per_thread q) (record q { prepost_recv_num = prepost }))

unfoldable pub set_device : Options → Params → Outcome Params
unfolding set_rest
set_device o p = do
  q ← set_ib_hca o.ib_hca (set_rest o p)
  ok (record q { threshold = o.threshold; tcp_port = o.tcp_port })

unfoldable pub parse_parameters :
    (String → Option Options)
    → (String → List String)
    → (String → Option ℤ)
    → Params
    → Outcome Params
parse_parameters read_config split stoi initial = do
  found ← find_config read_config
  o ← check_memory found
  p1 ← set_cores split stoi o initial
  p2 ← set_hosts split o p1
  p3 ← set_derived o p2
  set_device o p3
