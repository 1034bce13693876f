-- ===== src/Upload/Walk.antt =====
-- The chains of src/fruity/helpers/upload-receiver.c, format by format.
use frida_core.Base.{ℕ, ◌≤◌, ◌≡◌, some, List, length}
use frida_core.Upload.{Mem}
use frida_core.Upload.Items.{
  Ptrauth, next_generic64, fix_generic64, next_arm64e, fix_arm64e, fixups_generic64, fixups_arm64e,
}
use frida_core.Upload.Chain.{IsChain, IsFixedUp, walk-IsFixedUp}

-- On a chain of slots, each 8 bytes or more behind the one before, the loops over the 64-bit and over
-- the arm64e chains end within as many rounds as there are slots. Then each slot holds its fixed value,
-- made of what it held before, and no other byte has changed.
pub fixups-IsFixedUp :
    (pa : Ptrauth) (format actual preferred : ℕ) (bound : ℕ → ℕ) (slots slots' : List ℕ)
    (fuel cursor cursor' : ℕ) (m : Mem)
    → IsChain next_generic64 4 m cursor slots
    → IsChain next_arm64e 8 m cursor' slots'
    → length slots ≤ fuel
    → length slots' ≤ fuel
    → ((m' : Mem) × (fixups_generic64 format actual preferred bound fuel cursor m ≡ some m')
        × IsFixedUp (fix_generic64 format actual preferred bound) m slots m')
      × ((m' : Mem) × (fixups_arm64e pa format actual preferred bound fuel cursor' m ≡ some m')
          × IsFixedUp (fix_arm64e pa format actual preferred bound) m slots' m')
unfolding fixups_generic64 fixups_arm64e
fixups-IsFixedUp pa format actual preferred bound slots slots' fuel cursor cursor' m c c' le le' = (
  walk-IsFixedUp next_generic64 4 _ slots fuel cursor m c le,
  walk-IsFixedUp next_arm64e 8 _ slots' fuel cursor' m c' le',
)
