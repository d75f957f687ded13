-- ===== src/Modules/WriteFiles/Passes.antt =====
-- The two passes over `write_files`.
use cloud_init_rs.Prelude.{◌≡◌, refl, inl, inr, not, List, [], ◌∷◌, Bool-cases, keep}
use cloud_init_rs.Result.{for_each}
use cloud_init_rs.Result.Steps.{bind_cong}
use cloud_init_rs.Os.{Os}
use cloud_init_rs.Config.Types.{WriteFileConfig}
use cloud_init_rs.Modules.WriteFiles.{
  Codecs, write_file, write_files, write_deferred_files, deferred,
}

module _ (os : Os) (codecs : Codecs) where
  -- One pass over the files writes, in order, exactly those that are not deferred, and the other
  -- exactly those that are.
  pub write_files-keep :
      (files : List WriteFileConfig) (w : os.World)
      → (write_files os codecs files w
          ≡ for_each (write_file os codecs) (keep (λ f. not (deferred os codecs f)) files) w)
        × (write_deferred_files os codecs files w
            ≡ for_each (write_file os codecs) (keep (deferred os codecs) files) w)
  unfolding write_files write_deferred_files for_each
  write_files-keep [] w = (refl, refl)
  write_files-keep (f ∷ fs) w = elim (Bool-cases (deferred os codecs f)) [
    | inl e ↦ rw e (
      (write_files-keep fs w).0,
      bind_cong (write_file os codecs f) (λ _. write_deferred_files os codecs fs)
          (λ _. for_each (write_file os codecs) (keep (deferred os codecs) fs)) w
          (λ _ t. (write_files-keep fs t).1),
    )
    | inr e ↦ rw e (
      bind_cong (write_file os codecs f) (λ _. write_files os codecs fs)
          (λ _. for_each (write_file os codecs) (keep (λ g. not (deferred os codecs g)) fs)) w
          (λ _ t. (write_files-keep fs t).0),
      (write_files-keep fs w).1,
    )
  ]
