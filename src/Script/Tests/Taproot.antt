-- ===== src/Script/Tests/Taproot.antt =====
-- The properties of taproot.rs at concrete inputs.
use bitmigo.Prelude.{◌≡◌, refl, [], ◌∷◌, arith}
use bitmigo.Script.Error.{Returns, ok, ◌>>=◌}
use bitmigo.Script.Num.{Bytes}
use bitmigo.Script.Taproot.{ControlBlock, parse_control, verify_taproot_commitment, parent}
use bitmigo.Script.Taproot.Control.{IsControl, control_bytes, parse_control-IsControl}
use bitmigo.Script.Taproot.Commitment.{Decides, commitment-Decides}
use bitmigo.Script.Taproot.Order.{parent_comm}
use bitmigo.Script.Tests.World.{plain, zeros}

-- A control block with an odd parity and one node.
abbrev one_node : Bytes
one_node = 0xc1 ∷ zeros 64

parse_control-IsControl_example :
    (c : ControlBlock) × (parse_control one_node ≡ ok c)
    × IsControl c
    × (control_bytes c ≡ one_node)
parse_control-IsControl_example = parse_control-IsControl one_node

commitment-Decides_example :
    Returns (Decides plain 0xc1 (zeros 32) (zeros 32 ∷ []) (zeros 32) (zeros 32)) (do
      control ← parse_control one_node
      verify_taproot_commitment plain control (zeros 32) (zeros 32))
commitment-Decides_example =
    commitment-Decides plain 0xc1 (zeros 32) (zeros 32 ∷ []) (zeros 32) (zeros 32) refl (refl, tt)
      (omega arith)

parent_comm_example : parent plain (1 ∷ []) (2 ∷ []) ≡ parent plain (2 ∷ []) (1 ∷ [])
parent_comm_example = parent_comm plain (1 ∷ []) (2 ∷ [])
