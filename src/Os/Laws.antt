-- ===== src/Os/Laws.antt =====
-- What the theorems rely on of the file system. Two paths are told apart by their text: no link
-- makes two of the program's paths one file.
use cloud_init_rs.Prelude.{ℕ}
use cloud_init_rs.Prelude.{◌≡◌, ◌≢◌, true, false}
use cloud_init_rs.Prelude.Texts.{Text}
use cloud_init_rs.Result.{Result, ok, IoError}
use cloud_init_rs.Prelude.{List}
use cloud_init_rs.Prelude.Texts.{lit}
use cloud_init_rs.Os.{Output, command_of}
use cloud_init_rs.Os.{Os}

-- What a successful `fs::write` does.
pub record WriteLaws (os : Os) : Type 0 where
  pub write-exists :
      (p c : Text) (w w' : os.World) → os.write p c w ≡ (ok tt, w') → os.exists p w' ≡ true
  pub write-read :
      (p c : Text) (w w' : os.World) → os.write p c w ≡ (ok tt, w') → os.read_to_string p w' ≡ ok c
  pub write-exists_ne :
      (p c q : Text) (w w' : os.World)
      → os.write p c w ≡ (ok tt, w')
      → p ≢ q
      → os.exists q w' ≡ os.exists q w

-- What a successful `fs::remove_file` does.
pub record RemoveLaws (os : Os) : Type 0 where
  pub remove-exists :
      (p : Text) (w w' : os.World) → os.remove_file p w ≡ (ok tt, w') → os.exists p w' ≡ false
  pub remove-exists_ne :
      (p q : Text) (w w' : os.World)
      → os.remove_file p w ≡ (ok tt, w')
      → p ≢ q
      → os.exists q w' ≡ os.exists q w

-- `fs::create_dir_all` on a directory that is there changes nothing that exists.
pub record MkdirLaws (os : Os) : Type 0 where
  pub mkdir-exists :
      (d q : Text) (w w' : os.World)
      → os.exists d w ≡ true
      → os.create_dir_all d w ≡ (ok tt, w')
      → os.exists q w' ≡ os.exists q w

-- A successful `fs::set_permissions` leaves the contents alone.
pub record ChmodLaws (os : Os) : Type 0 where
  pub chmod-read :
      (p : Text) (mode : ℕ) (q : Text) (w w' : os.World)
      → os.set_permissions p mode w ≡ (ok tt, w')
      → os.read_to_string q w' ≡ os.read_to_string q w

-- `chown` changes who owns a file, and no file's content.
pub record ChownLaws (os : Os) : Type 0 where
  pub chown-read :
      (args : List Text) (q : Text) (w w' : os.World) (r : Result Output IoError)
      → os.output (command_of (lit "chown") args) w ≡ (r, w')
      → os.read_to_string q w' ≡ os.read_to_string q w

-- A successful `fs::write` leaves the contents of the other files alone, and `fs::create_dir_all`
-- those of all files.
pub record KeepLaws (os : Os) : Type 0 where
  pub write-read_ne :
      (p c q : Text) (w w' : os.World)
      → os.write p c w ≡ (ok tt, w')
      → p ≢ q
      → os.read_to_string q w' ≡ os.read_to_string q w
  pub mkdir-read :
      (d q : Text) (w w' : os.World)
      → os.create_dir_all d w ≡ (ok tt, w')
      → os.read_to_string q w' ≡ os.read_to_string q w
