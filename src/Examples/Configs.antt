-- ===== src/Examples/Configs.antt =====
-- A configuration of two workers and two aggregators.
use Prim.Native.String.{String}
use omnireduce.Base.{◌≡◌, ◌⊎◌, refl, List, [], ◌∷◌, Option, none, some, ℤ, pos}
use omnireduce.Params.{Params, omnireduce_params}
use omnireduce.Outcome.{Outcome, ok, failed, divide}
use omnireduce.Params.Parse.{
  Options, find_config, parse_parameters, copy_string, copy_strings, read_cores, set_worker_ips,
  set_aggregator_ips, set_worker_core_id, set_aggregator_core_id, set_ib_hca, check_memory,
  set_sizes, set_rest, set_cores, set_hosts, set_derived, set_device,
}
use omnireduce.Params.Parse.Checks.{IsConfigured, parse_parameters-IsConfigured}

abbrev options : Options
options = record {
  num_workers = 2;
  num_aggregators = 2;
  num_threads = 2;
  worker_cores = "0,0";
  aggregator_cores = "0,0";
  buffer_size = 1024;
  chunk_size = 1024;
  bitmap_chunk_size = 1024;
  message_size = 256;
  block_size = 256;
  ib_port = pos 1;
  gid_idx = pos 2;
  sl = pos 2;
  gpu_dev_id = 0;
  direct_memory = 1;
  adaptive_blocksize = 0;
  tcp_port = 19875;
  worker_ips = "0,0";
  aggregator_ips = "0,0";
  threshold = 0;
  ib_hca = "mlx5_0";
}

abbrev read_config : String → Option Options
read_config path = some options

abbrev split : String → List String
split s = "0" ∷ "0" ∷ []

abbrev stoi : String → Option ℤ
stoi s = some (pos 0)

abbrev result : Params → Outcome Params → Params
result p (ok q) = q
result p (failed e) = p

abbrev parsed : Params
parsed = result omnireduce_params (parse_parameters read_config split stoi omnireduce_params)

parses : parse_parameters read_config split stoi omnireduce_params ≡ ok parsed
unfolding omnireduce_params parse_parameters find_config copy_string copy_strings divide read_cores
    set_worker_ips set_aggregator_ips set_worker_core_id set_aggregator_core_id set_ib_hca
    check_memory set_sizes set_rest set_cores set_hosts set_derived set_device
    omnireduce.Params.set_num_slots_per_thread
parses = refl

parse_parameters-IsConfigured_example :
    (o : Options) × ((read_config "/etc/omnireduce.cfg" ≡ some o)
      ⊎ ((read_config "/etc/omnireduce.cfg" ≡ none) × (read_config "omnireduce.cfg" ≡ some o)))
    × IsConfigured split o parsed
parse_parameters-IsConfigured_example =
    parse_parameters-IsConfigured read_config split stoi omnireduce_params parsed parses
