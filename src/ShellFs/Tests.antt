-- ===== src/ShellFs/Tests.antt =====
-- Runs of shell/shell_fs.c at concrete inputs.
use krven_os.Common.{
  ℕ, ◌-◌, ◌/◌, ◌%◌, ◌≡◌, refl, arith, Option, none, some, List, [], ◌∷◌, ◌==◌, if◌then◌else◌,
}
use krven_os.Strings.{
  memcpy, strlen, strlen_loop, strcmp, strcmp_loop, compare_lengths, strcat, strcat_lengths,
}
use krven_os.Shell.{shell_ls, init_shell, literal}
use krven_os.Shell.Lookup.{static_shell}
use krven_os.Fs.{Fs, Sector}
use krven_os.Fs.Inode.{
  Inode, inode_bytes, entry_bytes, find_inode, inode_sector, sector_offset, read_inode,
}
use krven_os.Fs.Mkfs.{get_dir_entries, entries_loop}
use krven_os.Fs.Request.{Locals, fs_request, put_listing, copy_sectors}
use krven_os.Tty.{Tty, Terminals, Handlers, tty_write}
use krven_os.Tty.Ready.{init_tty-IsReady}
use krven_os.Keyboard.{Keyboard, press}
use krven_os.Keyboard.Typable.{typed_by}
use krven_os.ShellFs.{
  second_param, find_entry, keep_listing, update_current_dir, run_mkdir, run_mkfile,
}
use krven_os.ShellFs.Entries.{Listed, Lists}
use krven_os.ShellFs.Forget.{make-forgets_name}
use krven_os.ShellFs.Folder.{child_path, enter, cd_folder, cd_found, run_cd}
use krven_os.ShellFs.Path.{folder_path}
use krven_os.ShellFs.Change.{IsAt}
use krven_os.ShellFs.Back.{run_cd-run_cd}
use krven_os.ShellFs.Safe.{Reached, started, pressed, Reached-InRange}
use krven_os.Tty.Ranges.{InRange, KeepRange}

abbrev folder : (inode_id : ℕ) (name : List ℕ) → Listed
folder inode_id name = record { inode_id = inode_id; name = name; type = 2 }

-- ".", "..", "doc" in the root, inode 1, and ".", ".." in "doc", inode 5
abbrev root_entries : List Listed
root_entries = folder 1 (46 ∷ []) ∷ folder 1 (46 ∷ 46 ∷ []) ∷ folder 5 (100 ∷ 111 ∷ 99 ∷ []) ∷ []

abbrev doc_entries : List Listed
doc_entries = folder 5 (46 ∷ []) ∷ folder 1 (46 ∷ 46 ∷ []) ∷ []

-- The bytes of these entries, and zeros behind them.
abbrev bytes_of : List Listed → (j k : ℕ) → ℕ
bytes_of [] j k = 0
bytes_of (e ∷ es) j k =
    let rest = bytes_of es (j - 1) k in
    if j == 0
    then entry_bytes (record { inode_id = e.inode_id; name = literal e.name; type = e.type }) k
    else rest

abbrev listing_of : List Listed → ℕ → ℕ
listing_of es i = bytes_of es (i / 32) (i % 32)

abbrev one_sector : (start : ℕ) → Inode
one_sector start = record {
  mode = 0;
  size = 512;
  start_sect = start;
  sect_num = 1;
  v0 = 0;
  v1 = 0;
  v2 = 0;
  v3 = 0;
}

-- The inodes are in sector 4, the root in sector 10, "doc" in sector 11.
abbrev disk : ℕ → Sector
disk n i =
    if n == 4
    then if i / 32 == 1
      then inode_bytes (one_sector 10) (i % 32)
      else inode_bytes (one_sector 11) (i % 32)
    else if n == 10
    then listing_of root_entries i
    else listing_of doc_entries i

abbrev fs : Fs
fs = record {
  disk = disk;
  fs_root = 0;
  super_block = record {
    magic = 0x6666;
    inode_num = 4096;
    inode_sects = 256;
    sect_num = 10000;
    imap_sects = 1;
    smap_sects = 1;
    first_data_sect = 262;
    root_inode = 1;
  };
}

abbrev start_tty : (flag : ℕ) → Tty
start_tty flag = record {
  buf_size = 0;
  buf = λ i. 0;
  point = 0;
  pos = 0;
  cmd_buf = λ i. 0;
  console_buffer = record { cells = λ i. 0; saved_x = 0; saved_y = 0 };
  update_flag = flag;
  current_dir_inode_id = 1;
  dir_name = literal (47 ∷ []);
  fs_buf = listing_of root_entries;
}

abbrev start : (flag : ℕ) → Terminals
start flag = record {
  tty_table = λ i. start_tty flag;
  current_tty = 0;
  screen = record {
    video_memory = λ i. 0;
    cursor_x = 0;
    cursor_y = 0;
    console_cursor_x = 0;
    console_cursor_y = 0;
  };
  shell = init_shell (static_shell shell_ls);
  shell_fsbuf = λ i. 0;
  fs = fs;
}

abbrev locals : Locals
locals = record { junk = one_sector 0; old = λ i. 0 }

-- The words of a command with this second word.
abbrev params : List ℕ → ℕ → ℕ
params w i = literal w (i - 128)

root_listing : Lists 32 0 (listing_of root_entries) root_entries
unfolding entry_bytes
root_listing = omega arith

-- "new" and "old"
abbrev new_name : List ℕ
new_name = 110 ∷ 101 ∷ 119 ∷ []

abbrev old_name : List ℕ
old_name = 111 ∷ 108 ∷ 100 ∷ []

root_sectors : get_dir_entries 1 fs ≡ some (listing_of root_entries ∷ [])
unfolding get_dir_entries entries_loop find_inode inode_sector sector_offset read_inode inode_bytes
root_sectors = refl

three : strlen 1024 (second_param (params new_name)) ≡ some 3
unfolding strlen strlen_loop
three = refl

three' : strlen 1024 (second_param (params old_name)) ≡ some 3
unfolding strlen strlen_loop
three' = refl

clean : update_current_dir locals 0 (start 0) ≡ some (start 0)
unfolding update_current_dir
clean = refl

make-forgets_name_example :
    (run_mkdir locals (params new_name) 0 (start 1)
      ≡ run_mkdir locals (params old_name) 0 (start 1))
    × (run_mkfile locals (params new_name) 0 (start 1)
        ≡ run_mkfile locals (params old_name) 0 (start 1))
make-forgets_name_example =
    make-forgets_name locals (params new_name) (params old_name) 0 3 3
      (listing_of root_entries ∷ []) (start 1) (omega arith) root_sectors (omega arith) three three'
      (omega arith) (omega arith)

abbrev doc_name : List ℕ
doc_name = 100 ∷ 111 ∷ 99 ∷ []

abbrev parent_name : List ℕ
parent_name = 46 ∷ 46 ∷ []

-- The terminals after a run that succeeds.
abbrev after : Option Terminals → Terminals
after none = start 0
after (some t) = t

abbrev in_doc : Terminals
in_doc = after (run_cd locals (params doc_name) 0 (start 0))

to_doc : run_cd locals (params doc_name) 0 (start 0) ≡ some in_doc
unfolding run_cd update_current_dir cd_found cd_folder enter child_path strlen strlen_loop strcmp
    compare_lengths strcmp_loop strcat strcat_lengths find_entry entry_bytes memcpy
to_doc = refl

abbrev seen_doc : Terminals
seen_doc = after (update_current_dir locals 0 in_doc)

doc_read : update_current_dir locals 0 in_doc ≡ some seen_doc
unfolding run_cd update_current_dir cd_found cd_folder enter child_path strlen strlen_loop strcmp
    compare_lengths strcmp_loop strcat strcat_lengths find_entry entry_bytes get_dir_entries
    entries_loop find_inode inode_sector sector_offset read_inode inode_bytes keep_listing
    fs_request put_listing copy_sectors
doc_read = refl

doc_listing : Lists 32 0 (seen_doc.tty_table 0).fs_buf doc_entries
unfolding run_cd update_current_dir cd_found cd_folder enter child_path strlen strlen_loop strcmp
    compare_lengths strcmp_loop strcat strcat_lengths find_entry entry_bytes get_dir_entries
    entries_loop find_inode inode_sector sector_offset read_inode inode_bytes keep_listing
    fs_request put_listing copy_sectors memcpy
doc_listing = omega arith

run_cd-run_cd_example :
    (t2 : Terminals) × IsAt 0 5 (folder_path (47 ∷ []) doc_name) in_doc
    × (run_cd locals (params parent_name) 0 in_doc ≡ some t2)
    × IsAt 0 1 (47 ∷ []) t2
run_cd-run_cd_example =
    run_cd-run_cd locals (params doc_name) (params parent_name) 0 2 1 root_entries doc_entries
      (folder 5 doc_name) (folder 1 parent_name) (47 ∷ []) doc_name (start 0) (start 0) in_doc
      seen_doc clean root_listing refl refl refl refl (omega arith) (omega arith) (refl, refl)
      ([], refl) (omega arith) (omega arith) (omega arith) (omega arith) (omega arith) to_doc
      doc_read doc_listing refl refl (omega arith)

no_others : Handlers
no_others h params tty t = some t

no_others-KeepRange : KeepRange no_others
unfolding no_others
no_others-KeepRange h params tty t below ranged = ranged

-- The terminals after their start, the key of "l", which is 38, and a round for it.
abbrev ready : Terminals
ready = (init_tty-IsReady (start 1)).0

ready-Reached : Reached locals no_others ready
ready-Reached = started (start 1) ready ((init_tty-IsReady (start 1)).1)

no_keys : Keyboard
no_keys = record { buf = λ i. 0; head = 0; tail = 0; count = 0; caps_lock = 0; shift = 0 }

Reached-InRange_example :
    InRange (tty_write ready.current_tty (typed_by (press 38 no_keys).1) ready)
Reached-InRange_example =
    Reached-InRange locals no_others
      (tty_write ready.current_tty (typed_by (press 38 no_keys).1) ready) no_others-KeepRange
      (pressed 38 no_keys ready ready-Reached)
