-- ===== src/Fs/Request.antt =====
-- What the file-system task does for a request of the shell: fs/opt.c and the loop of `fs_task` in fs/fs.c.
-- `msg -> buf` is always the 2048 bytes of `shell_fsbuf`, which the task reads and writes in place. `none`
-- is a listing that does not fit there, a name that does not end in its 24 characters, or a fault on the
-- disk. The answer, which carries nothing, is the return of the function.
use krven_os.Common.{ℕ, ◌+◌, Option, none, some, List, [], ◌∷◌, ltb, if◌then◌else◌, length}
use krven_os.Strings.{memcpy, string_text}
use krven_os.Fs.{Fs, Sector}
use krven_os.Fs.Inode.{Inode}
use krven_os.Fs.Make.{mk_file, mk_dir}
use krven_os.Fs.Mkfs.{get_dir_entries}

-- The messages of type MSG_FS_DIR, MSG_FS_MKDIR and MSG_FS_MKFILE, with the fields that they use.
pub data FsRequest : Type 0 where
  msg_fs_dir : (inode : ℕ) → FsRequest
  msg_fs_mkdir : (inode mode : ℕ) → FsRequest
  msg_fs_mkfile : (inode mode cnt : ℕ) → FsRequest

-- What the local variables of the task hold before they are set.
pub record Locals : Type 0 where
  pub junk : Inode
  pub old : ℕ → ℕ

-- The sectors of a directory, one behind the other from `ptr` on.
unfoldable pub copy_sectors : List Sector → (ptr : ℕ) → (buf : ℕ → ℕ) → ℕ → ℕ
copy_sectors [] ptr buf = buf
copy_sectors (opt_buf ∷ rest) ptr buf = copy_sectors rest (ptr + 512) (memcpy 512 ptr 0 buf opt_buf)

-- `get_dir_entries` with the sectors that it has read.
unfoldable pub put_listing : Option (List Sector) → (buf : ℕ → ℕ) → Option (ℕ → ℕ)
put_listing none buf = none
put_listing (some sectors) buf =
    if ltb (length sectors) 5 then some (copy_sectors sectors 0 buf) else none

-- `opt_mk_dir` and `opt_mk_file` with the name, the 24 bytes of `buf` up to the zero.
unfoldable pub opt_mk_dir : Option (List ℕ) → (inode mode : ℕ) → Locals → Fs → Option Fs
opt_mk_dir none inode mode locals fs = none
opt_mk_dir (some name) inode mode locals fs = mk_dir name mode inode locals.junk locals.old fs

unfoldable pub opt_mk_file : Option (List ℕ) → (inode mode cnt : ℕ) → Locals → Fs → Option Fs
opt_mk_file none inode mode cnt locals fs = none
opt_mk_file (some name) inode mode cnt locals fs =
    mk_file name cnt mode inode locals.junk locals.old fs

abbrev pub with_buffer : (buf : ℕ → ℕ) → Option Fs → Option ((ℕ → ℕ) × Fs)
with_buffer buf none = none
with_buffer buf (some fs) = some (buf, fs)

abbrev pub with_disk : Fs → Option (ℕ → ℕ) → Option ((ℕ → ℕ) × Fs)
with_disk fs none = none
with_disk fs (some buf) = some (buf, fs)

-- One message of `fs_task`: the buffer and the disk afterwards.
unfoldable pub fs_request : Locals → FsRequest → (buf : ℕ → ℕ) → Fs → Option ((ℕ → ℕ) × Fs)
unfolding put_listing opt_mk_dir opt_mk_file
fs_request locals (msg_fs_dir inode) buf fs =
    with_disk fs (put_listing (get_dir_entries inode fs) buf)
fs_request locals (msg_fs_mkdir inode mode) buf fs =
    with_buffer buf (opt_mk_dir (string_text 24 0 buf) inode mode locals fs)
fs_request locals (msg_fs_mkfile inode mode cnt) buf fs =
    with_buffer buf (opt_mk_file (string_text 24 0 buf) inode mode cnt locals fs)
