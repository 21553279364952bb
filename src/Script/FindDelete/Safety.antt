-- ===== src/Script/FindDelete/Safety.antt =====
-- `find_and_delete` does not panic, and what it keeps and deletes adds up to the script.
use bitmigo.Prelude.{ℕ, ◌+◌, ◌*◌, ◌≤◌, ◌≡◌, ap, [], ◌∷◌, length, arith}
use bitmigo.Script.Error.{Returns→Safe, Safe, Safe-mono}
use bitmigo.Script.Num.{Bytes}
use bitmigo.Script.FindDelete.{find_and_delete}
use bitmigo.Script.FindDelete.Copies.{IsDeletion, deletion_length}
use bitmigo.Script.FindDelete.Deletes.{find_and_delete-IsDeletion}

IsDeletion-length :
    (script pattern : Bytes) (p : Bytes × ℕ)
    → IsDeletion script pattern p
    → length p.0 + p.1 * length pattern ≡ length script
IsDeletion-length script [] (kept, count) h = omega (arith, ap (λ (t : Bytes). length t) h.0, h.1)
IsDeletion-length script (byte ∷ bytes) (kept, count) d =
    let from_start : 0 ≤ length script = omega arith in
    ground (arith, deletion_length script (byte ∷ bytes) d from_start)

pub find_and_delete-Safe :
    (script pattern : Bytes)
    → Safe (λ p. length p.0 + p.1 * length pattern ≡ length script) (find_and_delete script pattern)
find_and_delete-Safe script pattern =
    Safe-mono (IsDeletion script pattern) _ (find_and_delete script pattern)
      (IsDeletion-length script pattern)
      (Returns→Safe (IsDeletion script pattern) (find_and_delete script pattern)
        (find_and_delete-IsDeletion script pattern))
