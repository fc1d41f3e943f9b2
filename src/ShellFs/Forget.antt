-- ===== src/ShellFs/Forget.antt =====
-- The name that `shell_mkdir` and `shell_mkfile` of shell/shell_fs.c leave in `shell_fsbuf` when they have
-- the listing read into the same buffer.
use krven_os.Common.{
  ℕ, ◌+◌, ◌<◌, ◌≤◌, ◌≡◌, ◌≢◌, ap, refl, arith, false, Option, none, some, List, [], ◌∷◌, ◌==◌, ltb,
  length, if◌then◌else◌,
}
use krven_os.Strings.{memcpy, strlen}
use krven_os.Strings.Join.{memcpy-covers}
use krven_os.Fs.{Fs, Sector}
use krven_os.Fs.Mkfs.{get_dir_entries}
use krven_os.Fs.Request.{
  FsRequest, msg_fs_mkdir, msg_fs_mkfile, Locals, fs_request, copy_sectors, put_listing, with_disk,
}
use krven_os.Tty.{Terminals}
use krven_os.ShellFs.{
  second_param, keep_listing, update_current_dir, check_updated, check_name_repeat, make, put_name,
  make_named, run_mkdir, run_mkfile,
}

-- A listing of a sector or more hides what was in the first 512 bytes of the buffer.
put_listing-covers :
    (listing : List Sector) (l l' : ℕ) (buf name name' : ℕ → ℕ)
    → 0 < length listing
    → l ≤ 512
    → l' ≤ 512
    → put_listing (some listing) (memcpy l 0 0 buf name)
      ≡ put_listing (some listing) (memcpy l' 0 0 buf name')
unfolding put_listing copy_sectors
put_listing-covers [] l l' buf name name' some_sector h h' = absurd (omega arith)
put_listing-covers (s ∷ rest) l l' buf name name' some_sector h h' =
    ap
      (λ (b : ℕ → ℕ).
        if ltb (length (s ∷ rest)) 5 then some (copy_sectors rest (0 + 512) b) else none)
      (memcpy-covers 512 l l' buf name name' s h h')

-- The listing takes the place of the buffer.
keep_listing-buffer :
    (num : ℕ) (listing : Option ((ℕ → ℕ) × Fs)) (buf buf' : ℕ → ℕ) (t : Terminals)
    → keep_listing num listing (record t { shell_fsbuf = buf })
      ≡ keep_listing num listing (record t { shell_fsbuf = buf' })
unfolding keep_listing
keep_listing-buffer num none buf buf' t = refl
keep_listing-buffer num (some (listed, fs)) buf buf' t = refl

update_current_dir-covers :
    (locals : Locals) (num l l' : ℕ) (name name' : ℕ → ℕ) (listing : List Sector) (t : Terminals)
    → (t.tty_table num).update_flag ≢ 0
    → get_dir_entries (t.tty_table num).current_dir_inode_id t.fs ≡ some listing
    → 0 < length listing
    → l ≤ 512
    → l' ≤ 512
    → update_current_dir locals num (record t { shell_fsbuf = memcpy l 0 0 t.shell_fsbuf name })
      ≡ update_current_dir locals num (record t { shell_fsbuf = memcpy l' 0 0 t.shell_fsbuf name' })
unfolding update_current_dir fs_request
update_current_dir-covers locals num l l' name name' listing t flag listed some_sector h h' =
    let stale : ((t.tty_table num).update_flag == 0) ≡ false = ground arith in
    let same = put_listing-covers listing l l' t.shell_fsbuf name name' some_sector h h' in
    rw (stale, listed, same)
      (keep_listing-buffer num
        (with_disk t.fs (put_listing (some listing) (memcpy l' 0 0 t.shell_fsbuf name')))
        (memcpy l 0 0 t.shell_fsbuf name) (memcpy l' 0 0 t.shell_fsbuf name') t)

make_named-covers :
    (locals : Locals) (msg : FsRequest) (params params' : ℕ → ℕ) (num l l' : ℕ)
    → (listing : List Sector) (t : Terminals) → (t.tty_table num).update_flag ≢ 0
    → get_dir_entries (t.tty_table num).current_dir_inode_id t.fs ≡ some listing
    → 0 < length listing
    → strlen 1024 (second_param params) ≡ some l
    → strlen 1024 (second_param params') ≡ some l'
    → l < 512
    → l' < 512
    → make_named locals msg params num t ≡ make_named locals msg params' num t
unfolding make_named put_name check_name_repeat
make_named-covers locals msg params params' num l l' listing t flag listed some_sector e e' h h' =
    rw (e, e')
      (ap (λ r. make locals msg num (check_updated num r))
        (update_current_dir-covers locals num (l + 1) (l' + 1) (second_param params)
          (second_param params') listing t flag listed some_sector (omega arith) (omega arith)))

-- When the listing of the terminal is out of date, as it is at the start and after a `mkdir`, `mkfile` or `cd`
-- that was not refused, and the directory has a sector, `mkdir` does the same for any two names of fewer than 512 characters,
-- and so does `mkfile`: the listing is read into the buffer that holds the name.
pub make-forgets_name :
    (locals : Locals) (params params' : ℕ → ℕ) (num l l' : ℕ) (listing : List Sector)
    → (t : Terminals) → (t.tty_table num).update_flag ≢ 0
    → get_dir_entries (t.tty_table num).current_dir_inode_id t.fs ≡ some listing
    → 0 < length listing
    → strlen 1024 (second_param params) ≡ some l
    → strlen 1024 (second_param params') ≡ some l'
    → l < 512
    → l' < 512
    → (run_mkdir locals params num t ≡ run_mkdir locals params' num t)
      × (run_mkfile locals params num t ≡ run_mkfile locals params' num t)
unfolding run_mkdir run_mkfile
make-forgets_name locals params params' num l l' listing t flag listed some_sector e e' h h' = (
  make_named-covers locals (msg_fs_mkdir (t.tty_table num).current_dir_inode_id 0) params params'
      num l l' listing t flag listed some_sector e e' h h',
  make_named-covers locals (msg_fs_mkfile (t.tty_table num).current_dir_inode_id 0 512) params
      params' num l l' listing t flag listed some_sector e e' h h',
)
