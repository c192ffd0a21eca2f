-- ===== src/Fs/Vfs.antt =====
-- kernel/fs/vfs.c and include/LySys/vfs.h: a file system is a record of its operations, and the calls of
-- the kernel go to the active one. kernel/fs/minix/fs.c: the record of the MINIX file system.
use ly_system_os.Prelude.{ℕ, Option, List}
use ly_system_os.Prelude.Int.{ℤ}
use ly_system_os.CString.{codes}
use ly_system_os.Fs.Disk.{Disk}
use ly_system_os.Fs.Minix.Files.{create_file, delete_file, read_file, write_file}
use ly_system_os.Fs.Minix.Dirs.{create_dir, delete_dir, Line, list_dir}
use ly_system_os.Fs.Minix.Moves.{rename_file, copy_file}
use ly_system_os.Fs.Minix.Super.{RootInfo, minixfs_init}

-- `filesystem_t`, over disks.
pub record Filesystem : Type 0 where
  pub fs_name : List ℕ
  pub fs_read_file : List ℕ → List ℕ → ℕ → Disk → ℤ × List ℕ
  pub fs_write_file : List ℕ → List ℕ → ℕ → Disk → ℤ × Disk
  pub fs_create_file : List ℕ → Disk → ℤ × Disk
  pub fs_delete_file : List ℕ → Disk → ℤ × Disk
  pub fs_rename_file : List ℕ → List ℕ → Disk → ℤ × Disk
  pub fs_copy_file : List ℕ → List ℕ → Disk → ℤ × Disk
  pub fs_create_dir : List ℕ → Disk → ℤ × Disk
  pub fs_delete_dir : List ℕ → Disk → ℤ × Disk
  pub fs_list_dir : Option (List ℕ) → Disk → List Line
  pub fs_init_op : Disk → ℤ × Option RootInfo

module _ (unset unset_data : List ℕ) where
  -- `minix_driver`, with what the uninitialised buffers hold.
  unfoldable pub minix_driver : Filesystem
  minix_driver = record {
    fs_name = codes "minix2";
    fs_read_file = read_file unset;
    fs_write_file = write_file unset;
    fs_create_file = create_file unset unset;
    fs_delete_file = delete_file unset;
    fs_rename_file = rename_file unset;
    fs_copy_file = copy_file unset unset_data;
    fs_create_dir = create_dir unset;
    fs_delete_dir = delete_dir unset;
    fs_list_dir = list_dir unset;
    fs_init_op = minixfs_init;
  }

-- The calls of the kernel. `fs_init` does not go through the record.
module _ (active_fs : Filesystem) where
  unfoldable pub vfs_list_dir : Option (List ℕ) → Disk → List Line
  vfs_list_dir name d = active_fs.fs_list_dir name d

  unfoldable pub vfs_create_file : List ℕ → Disk → ℤ × Disk
  vfs_create_file name d = active_fs.fs_create_file name d

  unfoldable pub vfs_delete_file : List ℕ → Disk → ℤ × Disk
  vfs_delete_file name d = active_fs.fs_delete_file name d

  unfoldable pub vfs_read_file : List ℕ → List ℕ → ℕ → Disk → ℤ × List ℕ
  vfs_read_file name output count d = active_fs.fs_read_file name output count d

  unfoldable pub vfs_write_file : List ℕ → List ℕ → ℕ → Disk → ℤ × Disk
  vfs_write_file name input count d = active_fs.fs_write_file name input count d

  unfoldable pub vfs_rename_file : List ℕ → List ℕ → Disk → ℤ × Disk
  vfs_rename_file old_name new_name d = active_fs.fs_rename_file old_name new_name d

  unfoldable pub vfs_copy_file : List ℕ → List ℕ → Disk → ℤ × Disk
  vfs_copy_file source dest d = active_fs.fs_copy_file source dest d

unfoldable pub vfs_init : Disk → ℤ × Option RootInfo
vfs_init d = minixfs_init d
