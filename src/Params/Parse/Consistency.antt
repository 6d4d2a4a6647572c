-- ===== src/Params/Parse/Consistency.antt =====
-- What parse_parameters returns is what the threads rely on.
use Prim.Native.String.{String}
use omnireduce.Base.{◌^◌, ◌<◌, ◌≡◌, inl, inr, List, Option, ℤ, arith, ℕ_discrete}
use omnireduce.Outcome.{ok}
use omnireduce.Params.{Params}
use omnireduce.Params.Consistent.{IsConsistent}
use omnireduce.Params.Parse.{Options, parse_parameters}
use omnireduce.Params.Parse.Checks.{parse_parameters-IsConfigured}

pub parse_parameters-IsConsistent :
    (read_config : String → Option Options) (split : String → List String)
    (stoi : String → Option ℤ) (initial p : Params)
    → parse_parameters read_config split stoi initial ≡ ok p
    → p.direct_memory < 2
    → IsConsistent p
parse_parameters-IsConsistent read_config split stoi initial p h switch =
    let (o, _, known) = parse_parameters-IsConfigured read_config split stoi initial p h in
    let small : p.num_slots_per_thread < 2 ^ 32 = rw (known.slots) (ground arith) in
    record {
      block_pos = known.block_pos;
      slots_small = small;
      sentinels = known.sentinels;
      direct = elim (ℕ_discrete p.direct_memory 0) [
        | yes e ↦ inl e
        | no e ↦ let on : p.direct_memory ≡ 1 = omega arith in inr (on, known.direct on)
      ];
    }
