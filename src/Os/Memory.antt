-- ===== src/Os/Memory.antt =====
-- A file system in memory that meets the laws, for the examples: a path holds a text or nothing,
-- directories are taken for granted, and every command exits with 0.
use cloud_init_rs.Os.Laws.{ChmodLaws, KeepLaws}
use cloud_init_rs.Prelude.{◌≡◌, ◌≢◌, ap, false, Option, none, some, []}
use cloud_init_rs.Prelude.{arith, if◌then◌else◌, is_some}
use cloud_init_rs.Prelude.Texts.{Text, ◌==◌, ==_iff, ==-refl}
use cloud_init_rs.Result.{Result, ok, err, IoError}
use cloud_init_rs.Os.{Os, Output}
use cloud_init_rs.Os.Laws.{ChownLaws}
use cloud_init_rs.Os.Laws.{WriteLaws, RemoveLaws, MkdirLaws}

abbrev pub Files : Type 0
Files = Text → Option Text

abbrev pub no_files : Files
no_files p = none

abbrev put : Text → Option Text → Files → Files
put p c files q = if p == q then c else files q

abbrev pub memory : Os
memory = record {
  World = Files;
  exists = λ p w. is_some (w p);
  is_file = λ p w. is_some (w p);
  is_symlink = λ p w. false;
  read_to_string = λ p w. elim (w p) [ none ↦ err [] | some c ↦ ok c ];
  read_dir = λ p w. ok [];
  unix_seconds = λ w. 7;
  create_dir_all = λ p w. (ok tt, w);
  write = λ p c w. (ok tt, put p (some c) w);
  remove_file = λ p w. (ok tt, put p none w);
  remove_dir_all = λ p w. (ok tt, w);
  symlink = λ t l w. (ok tt, put l (some t) w);
  set_permissions = λ p m w. (ok tt, w);
  output = λ c w. (ok (record { code = some 0; stdout = []; stderr = [] }), w);
}

put_self : (p : Text) (c : Option Text) (w : Files) → put p c w p ≡ c
put_self p c w = ground (arith, ==-refl p)

put_ne : (p q : Text) (c : Option Text) (w : Files) → p ≢ q → put p c w q ≡ w q
put_ne p q c w h = ground (arith, ==_iff p q)

-- The files after a step that succeeded.
files_after :
    {w w' : Files} → ◌≡◌ {A = Result (Unit {0}) IoError × Files} (ok tt, w) (ok tt, w') → w ≡ w'
files_after e = ap (λ (r : Result (Unit {0}) IoError × Files). r.1) e

pub memory_WriteLaws : WriteLaws memory
memory_WriteLaws = record {
  write-exists = λ p c w w' e. rw (← files_after e, put_self p (some c) w);
  write-read = λ p c w w' e. rw (← files_after e, put_self p (some c) w);
  write-exists_ne = λ p c q w w' e ne. rw (← files_after e, put_ne p q (some c) w ne);
}

pub memory_RemoveLaws : RemoveLaws memory
memory_RemoveLaws = record {
  remove-exists = λ p w w' e. rw (← files_after e, put_self p none w);
  remove-exists_ne = λ p q w w' e ne. rw (← files_after e, put_ne p q none w ne);
}

pub memory_MkdirLaws : MkdirLaws memory
memory_MkdirLaws = record { mkdir-exists = λ d q w w' h e. rw (← files_after e) }

pub memory_ChmodLaws : ChmodLaws memory
memory_ChmodLaws = record { chmod-read = λ p mode q w w' e. rw (← files_after e) }

pub memory_KeepLaws : KeepLaws memory
memory_KeepLaws = record {
  write-read_ne = λ p c q w w' e ne. rw (← files_after e, put_ne p q (some c) w ne);
  mkdir-read = λ d q w w' e. rw (← files_after e);
}

pub memory_ChownLaws : ChownLaws memory
memory_ChownLaws = record {
  chown-read = λ args q w w' r e. rw (← ap (λ (r : Result Output IoError × Files). r.1) e);
}
