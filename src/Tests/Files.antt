-- ===== src/Tests/Files.antt =====
-- The file operations: the theorems at small disks.
use ly_system_os.Prelude.{
  ℕ, ◌<◌, ◌≡◌, refl, inl, inr, true, some, List, [], ◌∷◌, arith, leb, ◌==◌, if◌then◌else◌, leb→le,
  Bool-cases, length, set, get_or, drop, replicate, All-set, All-replicate,
}
use ly_system_os.Prelude.Int.{pos}
use ly_system_os.Prelude.Bits.{every_below, every_below-holds}
use ly_system_os.CString.{codes, strncpy, strcmp}
use ly_system_os.Fs.Disk.{Disk}
use ly_system_os.Prelude.Bytes.{get16, put16, write_at}
use ly_system_os.CString.Search.{strrchr_from, strrchr}
use ly_system_os.CString.Memory.{memcpy}
use ly_system_os.Fs.Minix.Layout.{
  root_sector, i_zone, inode_sector, inode_offset, get_inode, entry_inode, entry_name, names,
  find_in, set_entry,
}
use ly_system_os.Fs.Minix.Path.{slash, temp_path, find_sector, find_entry, sector_at, entry_at}
use ly_system_os.Fs.Minix.Files.{create_file, delete_file, read_file, write_file}
use ly_system_os.Fs.Minix.RootNames.{IsRootName}
use ly_system_os.Fs.Minix.Create.{IsDisk}
use ly_system_os.Fs.Minix.CreateFile.{CreateOutcome, create_file_lem}
use ly_system_os.Fs.Minix.DeleteFile.{RootInodes, DeleteOutcome, delete_file_lem}
use ly_system_os.Fs.Minix.WriteRead.{read_file-write_file}
use ly_system_os.Fs.Minix.Walk.{descend, find_sector-descend}
use ly_system_os.Fs.Minix.Parts.{split, parts}

-- What the name buffer holds before it is written.
abbrev unset : List ℕ
unset = replicate 32 7

abbrev file_a : List ℕ
file_a = codes "a"

-- A disk whose inodes 1 to 8 are taken, and whose root directory has one entry with the name "a" of inode 5,
-- which has zone 300.
unfoldable small_root : List ℕ
small_root = set_entry (replicate 512 0) 0 5 (codes "a")

unfoldable small : Disk
unfolding small_root
small n =
    if n == 438
    then small_root
    else if n == 10
    then put16 (replicate 512 0) 142 300
    else if n == 2
    then set (replicate 512 0) 0 0xFF
    else replicate 512 0

small-sectors : (s : ℕ) → length (small s) ≡ 512
unfolding small small_root set_entry write_at put16 strncpy
small-sectors s = elim (Bool-cases (s == 438)) [
  | inl root ↦ rw root refl
  | inr other ↦ rw other (elim (Bool-cases (s == 10)) [
    | inl inodes ↦ rw inodes refl
    | inr rest ↦
        rw rest
          (elim (Bool-cases (s == 2)) [ inl bitmap ↦ rw bitmap refl | inr plain ↦ rw plain refl ])
  ])
]

small-IsDisk : IsDisk small
unfolding small
small-IsDisk = record {
  sectors = small-sectors;
  bitmap =
      All-set (λ b. b < 256) (replicate 512 0) 0 0xFF
        (All-replicate (λ b. b < 256) 512 0 (omega arith)) (omega arith);
}

file_a-IsRootName : IsRootName file_a
file_a-IsRootName = record { plain = (omega arith, tt); short = omega arith }

file_b-IsRootName : IsRootName (codes "b")
file_b-IsRootName = record { plain = (omega arith, tt); short = omega arith }

create_file_lem_example :
    CreateOutcome unset (codes "b") small (create_file (replicate 32 9) unset (codes "b") small)
create_file_lem_example =
    create_file_lem (replicate 32 9) unset (codes "b") small file_b-IsRootName refl refl
      small-IsDisk

small_inodes : every_below (λ j. leb (entry_inode (small 438) j) 4096) 16 ≡ true
unfolding every_below small small_root set_entry strncpy write_at put16 get16 entry_inode
small_inodes = refl

small-RootInodes : RootInodes small
small-RootInodes j h =
    leb→le (entry_inode (small 438) j) 4096
      (every_below-holds (λ j. leb (entry_inode (small 438) j) 4096) j 16 h small_inodes)

delete_file_lem_example :
    DeleteOutcome (strncpy unset file_a 30) small (delete_file unset file_a small)
delete_file_lem_example =
    delete_file_lem unset file_a small file_a-IsRootName refl small-IsDisk small-RootInodes

finds_a : find_entry unset file_a small ≡ 5
unfolding small small_root set_entry strncpy write_at put16 get16 entry_inode find_entry find_sector
    sector_at strrchr strrchr_from temp_path entry_at find_in names entry_name strcmp
finds_a = refl

zone_a : i_zone (get_inode 5 small) 0 ≡ 300
unfolding small small_root set_entry strncpy write_at put16 get16 i_zone get_inode inode_sector
    inode_offset memcpy
zone_a = refl

abbrev hello : List ℕ
hello = codes "hello"

read_file-write_file_example :
    ((write_file unset file_a hello 5 small).0 ≡ pos 5)
    × ((read_file unset file_a (replicate 8 0) 5 (write_file unset file_a hello 5 small).1).0
        ≡ pos 5)
    × ((k : ℕ)
        → k < 5
        → get_or
            (read_file unset file_a (replicate 8 0) 5 (write_file unset file_a hello 5 small).1).1
            k
            0
          ≡ get_or hello k 0)
read_file-write_file_example =
    read_file-write_file unset file_a small small 300 5 hello (replicate 8 0) file_a-IsRootName refl
      small-IsDisk (rw finds_a (omega arith)) (rw finds_a (inl (zone_a, omega arith, refl)))
      (omega arith) (omega arith) (omega arith) (omega arith) (omega arith)

-- The path "/d/f".
abbrev path_f : List ℕ
path_f = codes "/d/f"

last_slash : strrchr (temp_path path_f) slash ≡ some 2
unfolding strrchr strrchr_from temp_path strncpy
last_slash = refl

find_sector-descend_example : find_sector unset path_f small ≡ (
  descend (parts (set (temp_path path_f) 2 0)) root_sector small,
  strncpy unset (drop 3 (set (temp_path path_f) 2 0)) 30,
)
find_sector-descend_example = find_sector-descend unset path_f small 2 last_slash (omega arith)

path_parts : parts (set (temp_path path_f) 2 0) ≡ codes "d" ∷ []
unfolding split temp_path strncpy
path_parts = refl
