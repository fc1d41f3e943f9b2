-- ===== src/ShellFs/Session.antt =====
-- `mkdir` and `mkfile` of shell/shell_fs.c, and the listing after them.
use mathlib.Core.Path.{subst}
use krven_os.Common.{
  ℕ, zero, suc, ◌+◌, ◌*◌, ◌<◌, ◌≡◌, ◌≢◌, ◌∙◌, ap, sym, refl, arith, false, none, some, List, [],
  ◌∷◌, ◌++◌, ◌==◌, length, update, update_self,
}
use krven_os.Strings.{memcpy, IsString, IsText}
use krven_os.Strings.Join.{memcpy-start}
use krven_os.Fs.{Fs}
use krven_os.Fs.Map.{get_new_inode, inode_alloc_sector}
use krven_os.Fs.Inode.{Inode, find_inode}
use krven_os.Fs.Inode.RoundTrip.{FitsWords}
use krven_os.Fs.Make.{new_inode, current_dir_name, parent_dir_name}
use krven_os.Fs.Request.{Locals, fs_request, with_disk}
use krven_os.Tty.{Tty, Terminals, set_tty}
use krven_os.ShellFs.{
  second_param, keep_listing, update_current_dir, requested, run_mkdir, run_mkfile,
}
use krven_os.ShellFs.Entries.{Listed, Lists, first_named}
use krven_os.ShellFs.Repeat.{make-Lists}
use krven_os.ShellFs.Listing.{listing, listing_slot, IsEntry-agree}
use krven_os.ShellFs.Placed.{listed}
use krven_os.ShellFs.Added.{IsDir, get_dir_entries-IsDir}
use krven_os.ShellFs.MadeDir.{mk_dir-IsDir}
use krven_os.ShellFs.Made.{HasLayout, mk_file-IsDir}

-- A listing depends on the bytes of its places.
Lists-agree :
    (n i : ℕ) (a b : ℕ → ℕ) (es : List Listed)
    → ((k o : ℕ) → k < i + n → o < 32 → b (32 * k + o) ≡ a (32 * k + o))
    → Lists n i a es
    → Lists n i b es
Lists-agree zero i a b [] same lists = lists
Lists-agree zero i a b (e ∷ es) same lists = lists
Lists-agree (suc n) i a b [] same lists =
    let word = λ (o : ℕ) (h : o < 32). same i o (omega arith) h in
    let start : 32 * i + 0 ≡ 32 * i = omega arith in
    let first : b (32 * i) ≡ a (32 * i) = ap b (sym start) ∙ word 0 (omega arith) ∙ ap a start in
    rw (first, word 1 (omega arith), word 2 (omega arith), word 3 (omega arith)) lists
Lists-agree (suc n) i a b (e ∷ es) same (entry, lists) = (
  IsEntry-agree a b i e (λ o h. same i o (omega arith) h) entry,
  Lists-agree n (suc i) a b es (λ k o h h'. same k o (omega arith) h') lists,
)

-- The buffer behind the listing does not matter.
IsDir-buffer :
    (dir : ℕ) (buf buf' : ℕ → ℕ) (es : List Listed) (x : Inode) (fs : Fs)
    → IsDir dir buf es x fs
    → IsDir dir buf' es x fs
IsDir-buffer dir buf buf' es x fs (found, size, before, lists, free) = (
  found,
  size,
  before,
  Lists-agree 32 0 (listing 2 x.start_sect buf fs) (listing 2 x.start_sect buf' fs) es
      (λ k o h h'.
        listing_slot 2 x.start_sect k o buf' fs (omega arith) h'
        ∙ sym (listing_slot 2 x.start_sect k o buf fs (omega arith) h'))
      lists,
  free,
)

-- A listing that is out of date is read again: the terminal then has the entries of its directory, and nothing
-- else of the terminal and the disk changes.
pub update_current_dir-IsDir :
    (locals : Locals) (num : ℕ) (buf : ℕ → ℕ) (es : List Listed) (x : Inode) (t : Terminals)
    → let tty = t.tty_table num in
      tty.update_flag ≢ 0
      → IsDir tty.current_dir_inode_id buf es x t.fs
      → (fs_buf shell_fsbuf : ℕ → ℕ) × (update_current_dir locals num t
          ≡ some (
              set_tty num
                (record tty { update_flag = 0; fs_buf = fs_buf })
                (record t { shell_fsbuf = shell_fsbuf })))
        × Lists 32 0 fs_buf es
unfolding update_current_dir keep_listing fs_request
update_current_dir-IsDir locals num buf es x t flag at =
    let tty = t.tty_table num in
    let (found, size, before, lists, free) =
      IsDir-buffer tty.current_dir_inode_id buf t.shell_fsbuf es x t.fs at in
    let listed_buf = listing 2 x.start_sect t.shell_fsbuf t.fs in
    let fs_buf : ℕ → ℕ = memcpy 2048 0 0 tty.fs_buf listed_buf in
    let stale : (tty.update_flag == 0) ≡ false = ground arith in
    let read = get_dir_entries-IsDir tty.current_dir_inode_id t.shell_fsbuf x t.fs found size in
    (
      fs_buf,
      listed_buf,
      rw stale (ap (λ r. keep_listing num (with_disk t.fs r) t) read),
      Lists-agree 32 0 listed_buf fs_buf es
          (λ k o h h'. memcpy-start 2048 tty.fs_buf listed_buf (32 * k + o) (omega arith)) lists,
    )

-- With a listing that is up to date, a name that no entry of it has, a directory with room, and an inode and a
-- sector that are free, `mkfile` makes the file; the listing that is read next has the old entries and behind
-- them the file under its name, whose inode is found with a size of 512. The current directory has two sectors,
-- which are marked as used; the areas of the disk lie in the order in which `mkfs` puts them; the two inode
-- numbers are among the first sixteen, and the fields of the new inode fit their words.
pub run_mkfile-listed :
    (locals : Locals) (params : ℕ → ℕ) (num id start : ℕ) (buf : ℕ → ℕ) (es : List Listed)
    → (w : List ℕ) (x : Inode) (fs1 fs2 : Fs) (t : Terminals)
    → let tty = t.tty_table num in
      tty.update_flag ≡ 0
      → Lists 32 0 tty.fs_buf es
      → IsString (second_param params) 0 w
      → IsText w
      → length w < 24
      → first_named 0 es w ≡ none
      → length es < 32
      → get_new_inode t.fs ≡ (some id, fs1)
      → inode_alloc_sector 1 fs1 ≡ (some start, fs2)
      → HasLayout tty.current_dir_inode_id id start x t.fs
      → FitsWords (new_inode 512 0 start locals.junk)
      → IsDir tty.current_dir_inode_id buf es x t.fs
      → (t1 t2 : Terminals) × (run_mkfile locals params num t ≡ some t1)
        × (update_current_dir locals num t1 ≡ some t2)
        × Lists 32 0 (t2.tty_table num).fs_buf (es ++ (listed id 1 w ∷ []))
        × (find_inode id t2.fs ≡ some (new_inode 512 0 start locals.junk))
unfolding requested
run_mkfile-listed locals params num id start buf es w x fs1 fs2 t flag lists s text short unlisted
      room new run layout fits at =
    let tty = t.tty_table num in
    let dir = tty.current_dir_inode_id in
    let (named, spelled, folder, file) =
      make-Lists locals params num es w t flag lists s text short in
    let (fs', made, inode, at') =
      mk_file-IsDir 512 0 locals.junk t.fs fs1 fs2 dir id start buf es x new run (omega arith)
        (omega arith) layout fits at w locals.old room text short in
    let marked : Tty = record tty { update_flag = 1 } in
    let t1 : Terminals = record t {
      tty_table = update t.tty_table num marked;
      shell_fsbuf = named;
      fs = fs';
    } in
    let self : t1.tty_table num ≡ marked = update_self t.tty_table num marked in
    let stale : (t1.tty_table num).update_flag ≢ 0 =
      subst (λ (y : Tty). y.update_flag ≢ 0) (sym self) (omega arith) in
    let at1 : IsDir (t1.tty_table num).current_dir_inode_id buf (es ++ (listed id 1 w ∷ [])) x fs' =
      subst (λ (y : Tty). IsDir y.current_dir_inode_id buf (es ++ (listed id 1 w ∷ [])) x fs')
        (sym self) at' in
    let (fs_buf, read, updated, lists') =
      update_current_dir-IsDir locals num buf (es ++ (listed id 1 w ∷ [])) x t1 stale at1 in
    let last : Tty = record (t1.tty_table num) { update_flag = 0; fs_buf = fs_buf } in
    (
      t1,
      record t1 { tty_table = update t1.tty_table num last; shell_fsbuf = read },
      file ∙ rw (unlisted, made) refl,
      updated,
      subst (λ (y : Tty). Lists 32 0 y.fs_buf (es ++ (listed id 1 w ∷ [])))
          (sym (update_self t1.tty_table num last)) lists',
      inode,
    )

-- What `mkdir` leaves: both directories on the disk, and a listing that is to be read.
pub run_mkdir-IsDir :
    (locals : Locals) (params : ℕ → ℕ) (num id start : ℕ) (buf : ℕ → ℕ) (es : List Listed)
    → (w : List ℕ) (x : Inode) (fs1 fs2 : Fs) (t : Terminals)
    → let tty = t.tty_table num in
      let dir = tty.current_dir_inode_id in
      tty.update_flag ≡ 0
      → Lists 32 0 tty.fs_buf es
      → IsString (second_param params) 0 w
      → IsText w
      → length w < 24
      → first_named 0 es w ≡ none
      → length es < 32
      → get_new_inode t.fs ≡ (some id, fs1)
      → inode_alloc_sector 2 fs1 ≡ (some start, fs2)
      → HasLayout dir id start x t.fs
      → FitsWords (new_inode 1024 0 start locals.junk)
      → IsDir dir buf es x t.fs
      → 0 < dir
      → (t1 : Terminals) × (run_mkdir locals params num t ≡ some t1)
        × (t1.tty_table num ≡ record tty { update_flag = 1 })
        × IsDir dir buf (es ++ (listed id 2 w ∷ [])) x t1.fs
        × IsDir id buf
            (listed id 2 current_dir_name ∷ listed dir 2 parent_dir_name ∷ [])
            (new_inode 1024 0 start locals.junk)
            t1.fs
unfolding requested
run_mkdir-IsDir locals params num id start buf es w x fs1 fs2 t flag lists s text short unlisted
      room new run layout fits at pos =
    let tty = t.tty_table num in
    let dir = tty.current_dir_inode_id in
    let (named, spelled, folder, file) =
      make-Lists locals params num es w t flag lists s text short in
    let (fs', made, at', new_dir) =
      mk_dir-IsDir 0 locals.junk t.fs fs1 fs2 dir id start buf es x w locals.old new run layout fits
        at pos room text short in
    let marked : Tty = record tty { update_flag = 1 } in
    (
      record t { tty_table = update t.tty_table num marked; shell_fsbuf = named; fs = fs' },
      folder ∙ rw (unlisted, made) refl,
      update_self t.tty_table num marked,
      at',
      new_dir,
    )
