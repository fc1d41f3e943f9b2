-- ===== src/ShellFs/Runs.antt =====
-- Runs of shell/shell_fs.c on a small disk.
use krven_os.Common.{
  ℕ, zero, suc, ◌+◌, ◌-◌, ◌/◌, ◌%◌, ◌<◌, ◌≤◌, ◌⊎◌, ◌≡◌, refl, arith, true, Bool, ◌&&◌, Option, some,
  List, [], ◌∷◌, ◌++◌, ◌==◌, if◌then◌else◌, length,
}
use krven_os.Common.Bits.{has_bit}
use krven_os.Strings.{IsString, memcpy}
use mathlib.Core.Path.{subst}
use krven_os.Shell.{shell_ls, init_shell, literal}
use krven_os.Shell.Lookup.{static_shell, init_shell-HasCommands}
use krven_os.Fs.{Fs, Sector, fs_read, fs_write, mark_bit}
use krven_os.Fs.Map.{get_new_inode, clear_loop, inode_alloc_sector, search_loop, run_loop, take_run}
use krven_os.Fs.Inode.{
  Inode, inode_bytes, entry_bytes, add_dir_entry, find_inode, inode_sector, sector_offset,
  read_inode,
}
use krven_os.Fs.Make.{new_inode, mk_dir, current_dir_name, parent_dir_name}
use krven_os.Fs.Inode.RoundTrip.{FitsWords}
use krven_os.Fs.Inode.Slots.{slot_inode}
use krven_os.Fs.Mkfs.{entries_loop, get_dir_entries}
use krven_os.Fs.Request.{Locals, copy_sectors, put_listing}
use krven_os.Tty.{
  Terminals, Handlers, ◌>>◌, tty_print, tty_prints, tty_write, tty_print_header, reset,
}
use krven_os.ShellFs.Entries.{Listed, Lists}
use krven_os.ShellFs.{second_param, update_current_dir, run_mkdir, run_mkfile}
use krven_os.ShellFs.Folder.{run_cd, fs_handlers}
use krven_os.ShellFs.Typed.{cd, tty_print-Named}
use krven_os.ShellFs.Session.{run_mkfile-listed}
use krven_os.ShellFs.MadeDir.{mk_dir-IsDir}
use krven_os.ShellFs.Path.{folder_path}
use krven_os.ShellFs.Change.{IsAt}
use krven_os.ShellFs.Listing.{listing}
use krven_os.ShellFs.Placed.{listed, named_entry}
use krven_os.ShellFs.Added.{IsDir, add_dir_entry-IsDir}
use krven_os.ShellFs.Made.{HasLayout}
use krven_os.ShellFs.Journey.{run_mkdir-run_cd-run_cd}

abbrev entries : List Listed
entries = listed 1 2 current_dir_name ∷ listed 1 2 parent_dir_name ∷ []

-- The bytes of entries, and zeros behind them.
abbrev bytes_of : List Listed → (j k : ℕ) → ℕ
bytes_of [] j k = 0
bytes_of (e ∷ es) j k =
    let rest = bytes_of es (j - 1) k in
    if j == 0
    then entry_bytes (record { inode_id = e.inode_id; name = literal e.name; type = e.type }) k
    else rest

abbrev root : Inode
root = record {
  mode = 0;
  size = 1024;
  start_sect = 12;
  sect_num = 2;
  v0 = 0;
  v1 = 0;
  v2 = 0;
  v3 = 0;
}

-- Inodes 0 and 1 and the sectors below 14 are in use; the inodes are in sector 4, the root in 12 and 13.
abbrev disk : ℕ → Sector
disk n i =
    if n == 2
    then if i == 0 then 3 else 0
    else if n == 3
    then if i == 0 then 255 else if i == 1 then 63 else 0
    else if n == 4
    then if i / 32 == 1 then inode_bytes root (i % 32) else 0
    else if n == 12
    then bytes_of entries (i / 32) (i % 32)
    else 0

abbrev fs : Fs
fs = record {
  disk = disk;
  fs_root = 0;
  super_block = record {
    magic = 0x6666;
    inode_num = 4096;
    inode_sects = 8;
    sect_num = 4096;
    imap_sects = 1;
    smap_sects = 1;
    first_data_sect = 12;
    root_inode = 1;
  };
}

abbrev numbered : Fs
numbered = fs_write 2 (mark_bit (fs_read 2 fs) 2) fs

-- The disk after an allocation that succeeds.
abbrev after : Option ℕ × Fs → Fs
after (start, fs) = fs

first_number : get_new_inode fs ≡ (some 2, numbered)
unfolding get_new_inode clear_loop has_bit
first_number = refl

abbrev placed : Fs
placed = after (inode_alloc_sector 2 numbered)

first_run : inode_alloc_sector 2 numbered ≡ (some 14, placed)
unfolding inode_alloc_sector search_loop run_loop take_run has_bit
first_run = refl

zero_below : (n : ℕ) → (ℕ → ℕ) → Bool
zero_below zero f = true
zero_below (suc n) f = (f n == 0) && zero_below n f

zero_below_sound : (n : ℕ) (f : ℕ → ℕ) (k : ℕ) → zero_below n f ≡ true → k < n → f k ≡ 0
unfolding zero_below
zero_below_sound zero f k h below = absurd (omega arith)
zero_below_sound (suc n) f k h below = ground (arith, zero_below_sound n f k)

free_slots : zero_below 29 (λ k. slot_inode 12 fs (k + 3)) ≡ true
unfolding zero_below entry_bytes
free_slots = refl

root_found : find_inode 1 fs ≡ some root
unfolding find_inode inode_sector sector_offset read_inode inode_bytes
root_found = refl

root_listed : Lists 32 0 (listing 2 12 (λ _. 0) fs) entries
unfolding copy_sectors entries_loop memcpy entry_bytes
root_listed = omega arith

root-IsDir : IsDir 1 (λ _. 0) entries root fs
unfolding inode_sector
root-IsDir = (
  root_found,
  refl,
  omega arith,
  root_listed,
  λ k h h'.
      let e : k - 3 + 3 ≡ k = omega arith in
      subst (λ k. slot_inode 12 fs k ≡ 0) e
        (zero_below_sound 29 (λ k. slot_inode 12 fs (k + 3)) (k - 3) free_slots (omega arith)),
)

root-HasLayout : HasLayout 1 2 14 root fs
unfolding inode_sector has_bit
root-HasLayout = (
  omega arith,
  omega arith,
  omega arith,
  omega arith,
  omega arith,
  omega arith,
  omega arith,
  refl,
  refl,
)

abbrev start : Terminals
start = record {
  tty_table = λ i. record {
    buf_size = 0;
    buf = λ i. 0;
    point = 0;
    pos = 0;
    cmd_buf = λ i. 0;
    console_buffer = record { cells = λ i. 0; saved_x = 0; saved_y = 0 };
    update_flag = 0;
    current_dir_inode_id = 1;
    dir_name = literal (47 ∷ []);
    fs_buf = λ i. bytes_of entries (i / 32) (i % 32);
  };
  current_tty = 0;
  screen = record {
    video_memory = λ i. 0;
    cursor_x = 0;
    cursor_y = 0;
    console_cursor_x = 0;
    console_cursor_y = 0;
  };
  shell = init_shell (static_shell shell_ls);
  shell_fsbuf = λ i. 0;
  fs = fs;
}

abbrev locals : Locals
locals = record { junk = root; old = λ i. 0 }

-- The words of a command with this second word.
abbrev params : List ℕ → ℕ → ℕ
params w i = literal w (i - 128)

seen : Lists 32 0 (λ i. bytes_of entries (i / 32) (i % 32)) entries
unfolding entry_bytes
seen = omega arith

-- "doc"
abbrev doc : List ℕ
doc = 100 ∷ 111 ∷ 99 ∷ []

new_dir-FitsWords : FitsWords (new_inode 1024 0 14 root)
new_dir-FitsWords = (
  omega arith,
  omega arith,
  omega arith,
  omega arith,
  omega arith,
  omega arith,
  omega arith,
  omega arith,
)

run_mkdir-run_cd-run_cd_example :
    (t1 t2 t3 : Terminals) × (run_mkdir locals (params doc) 0 start ≡ some t1)
    × (run_cd locals (params doc) 0 t1 ≡ some t2)
    × IsAt 0 2 (folder_path (47 ∷ []) doc) t2
    × (run_cd locals (params parent_dir_name) 0 t2 ≡ some t3)
    × IsAt 0 1 (47 ∷ []) t3
run_mkdir-run_cd-run_cd_example =
    run_mkdir-run_cd-run_cd locals (params doc) (params parent_dir_name) 0 2 14 (λ _. 0) entries
      (47 ∷ []) doc root numbered placed start refl seen (omega arith) (omega arith) (omega arith)
      refl (omega arith) first_number first_run root-HasLayout new_dir-FitsWords root-IsDir
      (omega arith) (omega arith) ([], refl) (omega arith) (omega arith) (omega arith) (omega arith)
      refl refl (omega arith)

placed_one : Fs
placed_one = after (inode_alloc_sector 1 numbered)

one_run : inode_alloc_sector 1 numbered ≡ (some 14, placed_one)
unfolding placed_one inode_alloc_sector search_loop run_loop take_run has_bit
one_run = refl

new_file-FitsWords : FitsWords (new_inode 512 0 14 root)
new_file-FitsWords = (
  omega arith,
  omega arith,
  omega arith,
  omega arith,
  omega arith,
  omega arith,
  omega arith,
  omega arith,
)

run_mkfile-listed_example :
    (t1 t2 : Terminals) × (run_mkfile locals (params doc) 0 start ≡ some t1)
    × (update_current_dir locals 0 t1 ≡ some t2)
    × Lists 32 0 (t2.tty_table 0).fs_buf (entries ++ (listed 2 1 doc ∷ []))
    × (find_inode 2 t2.fs ≡ some (new_inode 512 0 14 root))
run_mkfile-listed_example =
    run_mkfile-listed locals (params doc) 0 2 14 (λ _. 0) entries doc root numbered placed_one start
      refl seen (omega arith) (omega arith) (omega arith) refl (omega arith) first_number one_run
      root-HasLayout new_file-FitsWords root-IsDir

mk_dir-IsDir_example :
    (fs' : Fs) × (mk_dir doc 0 1 root (λ _. 0) fs ≡ some fs')
    × IsDir 1 (λ _. 0) (entries ++ (listed 2 2 doc ∷ [])) root fs'
    × IsDir 2
        (λ _. 0)
        (listed 2 2 current_dir_name ∷ listed 1 2 parent_dir_name ∷ [])
        (new_inode 1024 0 14 root)
        fs'
mk_dir-IsDir_example =
    mk_dir-IsDir 0 root fs numbered placed 1 2 14 (λ _. 0) entries root doc (λ _. 0) first_number
      first_run root-HasLayout new_dir-FitsWords root-IsDir (omega arith) (omega arith)
      (omega arith) (omega arith)

add_dir_entry-IsDir_example :
    (fs' : Fs) × (add_dir_entry 1 (named_entry 2 1 doc (λ _. 0)) fs ≡ some fs')
    × (put_listing (get_dir_entries 1 fs') (λ _. 0) ≡ some (listing 2 12 (λ _. 0) fs'))
    × IsDir 1 (λ _. 0) (entries ++ (listed 2 1 doc ∷ [])) root fs'
    × ((m : ℕ) → inode_sector m fs' ≡ inode_sector m fs)
    × ((s : ℕ) → (s < 12) ⊎ (12 + 2 ≤ s) → fs_read s fs' ≡ fs_read s fs)
add_dir_entry-IsDir_example =
    add_dir_entry-IsDir 1 2 1 doc (λ _. 0) (λ _. 0) entries root fs root-IsDir (omega arith)
      (omega arith) (omega arith) (omega arith) (omega arith) (omega arith)

-- "cd a"
abbrev typed : List ℕ
typed = 99 ∷ 100 ∷ 32 ∷ 97 ∷ []

no_commands : Handlers
no_commands h params tty t = some t

tty_print-Named_example :
    (t1 t2 : Terminals) × (tty_prints
        (fs_handlers locals no_commands)
        (length typed)
        0
        (tty_write 0 (typed ++ (10 ∷ [])) start)
      ≡ some t1)
    × (tty_print (fs_handlers locals no_commands) 0 t1 ≡ (
        run_cd locals t2.shell.shell_params t2.current_tty t2
        >> (λ t. tty_print_header 0 (reset 0 t))))
    × IsString (second_param t2.shell.shell_params) 0 (97 ∷ [])
    × (t2.current_tty ≡ 0)
tty_print-Named_example =
    tty_print-Named locals no_commands 0 cd (97 ∷ []) [] typed start
      (refl, refl, omega arith, refl, refl, omega arith, refl) (init_shell-HasCommands shell_ls)
      (omega arith) (omega arith) (omega arith) refl
