-- ===== src/Approvals/Decide/Replay.antt =====
-- A decision that is made again under its key writes nothing.
use Prim.Native.Nat.{compare as compare_nat}
use Prim.Native.String.{compare as compare_text}
use hyperfixation_core.Prelude.{String}
