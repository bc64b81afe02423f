-- ===== src/Client/Commands/JobFlags/Given.antt =====
-- client/cmd/jobs.go: which values the flags of `scalemate jobs create` can have.
use Prim.Native.String.{String}
use scalemate.Prelude.{◌≡◌, ◌↔◌, ◌∙◌, ap, sym, refl, List, [], ◌∷◌, ◌++◌, map}
use scalemate.Client.Commands.FlagSets.{apply_flags, apply_flags-map}
use scalemate.Client.Jobs.{CreateJobCmdFlags}
use scalemate.Client.Commands.JobFlags.{
  CreateJobFlag, volume_flag, download_flag, download_exclude_flag, upload_flag,
  upload_exclude_flag, port_flag, env_flag, entrypoint_flag, cpu_limit_flag, cpu_class_flag,
  gpu_limit_flag, gpu_class_flag, disk_limit_flag, disk_class_flag, restart_flag, reschedule_flag,
  cpu_label_flag, gpu_label_flag, disk_label_flag, memory_label_flag, username_label_flag,
  name_label_flag, other_label_flag, daemon_flag, default_values, set_flag, set_flags,
  set_flags-memory_limit,
}

-- Flags for all the values, but for the memory.
unfoldable pub job_flags_of : CreateJobCmdFlags → List CreateJobFlag
job_flags_of f =
    map volume_flag f.volumes
    ++ (map download_flag f.download_paths
        ++ (map download_exclude_flag f.download_exclude
            ++ (map upload_flag f.upload_paths
                ++ (map upload_exclude_flag f.upload_exclude
                    ++ (map port_flag f.ports
                        ++ (map env_flag f.env_vars
                            ++ (map cpu_label_flag f.cpu_labels
                                ++ (map gpu_label_flag f.gpu_labels
                                    ++ (map disk_label_flag f.disk_labels
                                        ++ (map memory_label_flag f.memory_labels
                                            ++ (map username_label_flag f.username_labels
                                                ++ (map name_label_flag f.name_labels
                                                    ++ (map other_label_flag f.other_labels
                                                        ++ (entrypoint_flag f.entrypoint
                                                            ∷ cpu_limit_flag f.cpu_limit
                                                            ∷ cpu_class_flag f.cpu_class
                                                            ∷ gpu_limit_flag f.gpu_limit
                                                            ∷ gpu_class_flag f.gpu_class
                                                            ∷ disk_limit_flag f.disk_limit
                                                            ∷ disk_class_flag f.disk_class
                                                            ∷ restart_flag f.restart_policy
                                                            ∷ reschedule_flag f.reschedule_policy
                                                            ∷ daemon_flag f.is_daemon
                                                            ∷ []))))))))))))))

module _ (extend : List String → String → List String)
    (extends : (xs : List String) (x : String) → extend xs x ≡ xs ++ x ∷ []) where
  array_flag :
      (flag : String → CreateJobFlag) (put : CreateJobCmdFlags → List String → CreateJobCmdFlags)
      → ((g : CreateJobCmdFlags) (xs : List String) (v : String)
          → set_flag extend (flag v) (put g xs) ≡ put g (extend xs v))
      → (values : List String) (rest : List CreateJobFlag) (g : CreateJobCmdFlags) → g ≡ put g []
      → set_flags extend (map flag values ++ rest) g ≡ set_flags extend rest (put g values)
  array_flag flag put sets =
      apply_flags-map (set_flag extend) flag put λ g xs v. sets g xs v ∙ ap (put g) (extends xs v)

  set_flags-job_flags_of :
      (f : CreateJobCmdFlags)
      → set_flags extend (job_flags_of f) default_values ≡ record f { memory_limit = 0 }
  unfolding set_flag job_flags_of apply_flags default_values
  set_flags-job_flags_of f =
      array_flag volume_flag (λ g v. record g { volumes = v }) (λ g xs v. refl) f.volumes _ _ refl
      ∙ array_flag download_flag (λ g v. record g { download_paths = v }) (λ g xs v. refl)
          f.download_paths _ _ refl
      ∙ array_flag download_exclude_flag (λ g v. record g { download_exclude = v }) (λ g xs v. refl)
          f.download_exclude _ _ refl
      ∙ array_flag upload_flag (λ g v. record g { upload_paths = v }) (λ g xs v. refl)
          f.upload_paths _ _ refl
      ∙ array_flag upload_exclude_flag (λ g v. record g { upload_exclude = v }) (λ g xs v. refl)
          f.upload_exclude _ _ refl
      ∙ array_flag port_flag (λ g v. record g { ports = v }) (λ g xs v. refl) f.ports _ _ refl
      ∙ array_flag env_flag (λ g v. record g { env_vars = v }) (λ g xs v. refl) f.env_vars _ _ refl
      ∙ array_flag cpu_label_flag (λ g v. record g { cpu_labels = v }) (λ g xs v. refl) f.cpu_labels
          _ _ refl
      ∙ array_flag gpu_label_flag (λ g v. record g { gpu_labels = v }) (λ g xs v. refl) f.gpu_labels
          _ _ refl
      ∙ array_flag disk_label_flag (λ g v. record g { disk_labels = v }) (λ g xs v. refl)
          f.disk_labels _ _ refl
      ∙ array_flag memory_label_flag (λ g v. record g { memory_labels = v }) (λ g xs v. refl)
          f.memory_labels _ _ refl
      ∙ array_flag username_label_flag (λ g v. record g { username_labels = v }) (λ g xs v. refl)
          f.username_labels _ _ refl
      ∙ array_flag name_label_flag (λ g v. record g { name_labels = v }) (λ g xs v. refl)
          f.name_labels _ _ refl
      ∙ array_flag other_label_flag (λ g v. record g { other_labels = v }) (λ g xs v. refl)
          f.other_labels _ _ refl

  -- The values that the flags of `scalemate jobs create` can be given are exactly those with the limit
  -- 0 for the memory; if one more value of an array is added to its end.
  pub set_flags-reaches :
      (f : CreateJobCmdFlags)
      → ((flags : List CreateJobFlag) × (set_flags extend flags default_values ≡ f))
        ↔ (f.memory_limit ≡ 0)
  unfolding default_values
  set_flags-reaches f = (
    (λ (flags, e).
        ap (λ g. g.memory_limit) (sym e) ∙ set_flags-memory_limit extend flags default_values),
    λ e. (job_flags_of f, set_flags-job_flags_of f ∙ rw (sym e) refl),
  )
