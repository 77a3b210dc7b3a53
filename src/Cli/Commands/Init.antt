-- ===== src/Cli/Commands/Init.antt =====
-- What may come of `init`.
use privacy_proxy.Base.{
  ℕ, Bool, true, false, none, some, [], ◌∷◌, ◌++◌, take, ◌≡◌, ◌≢◌, refl, ap, ◌∙◌, ◌⊎◌, inl, inr,
  Option-cases, Bool-cases,
}
use privacy_proxy.Text.{Bytes, codes, is_empty}
use privacy_proxy.Error.{Fallible, ok, err}
use privacy_proxy.Cli.Commands.{
  Failure, create_directory, open_config, create_config, write_config, World, System, update,
  Outcome, write, file,
}
use privacy_proxy.Cli.Commands.Laws.{update-same, update-other}
use privacy_proxy.Cli.Init.{
  example_toml, part_then, dirs_made, parent_made, config_opened, written_config, init_config,
}

module _ (s : System) where
  -- A file may be replaced by `--force` only.
  abbrev pub Free : World → Bytes → Bool → Type 0
  Free world path force = (force ≡ true) ⊎ (world.files (s.file_at path) ≡ none)

  -- Why `init` stops before it has a file to write to.
  abbrev pub Refusal : World → Bytes → Bool → Failure → Type 0
  Refusal world path force failure =
      ((parent : Bytes) × (s.parent path ≡ some parent)
        × ((s.create_dir_all parent world.dirs).1 ≡ false)
        × (failure ≡ create_directory parent))
      ⊎ ((s.can_write path ≡ false) ⊎ ((force ≡ false) × (¬ (world.files (s.file_at path) ≡ none))))

  -- Nothing but directories was changed.
  pub record Refused (world : World) (path : Bytes) (force : Bool) (outcome : Outcome)
      : Type 0 where
    pub failure : Failure
    pub failed : outcome.result ≡ err failure
    pub reason : Refusal world path force failure
    pub same_files : outcome.world.files ≡ world.files
    pub same_stdout : outcome.world.stdout ≡ world.stdout

  -- The file was opened, and has that content.
  pub record Stored (world : World) (path : Bytes) (force : Bool) (content : Bytes)
      (outcome : Outcome) : Type 0 where
    pub free : Free world path force
    pub stored : outcome.world.files (s.file_at path) ≡ some content
    pub others :
        (other : ℕ) → other ≢ s.file_at path → outcome.world.files other ≡ world.files other

  -- What may come of `init`.
  abbrev pub Initialised : World → Bytes → Bool → Outcome → Type 0
  Initialised world path force outcome =
      Refused world path force outcome
      ⊎ (((count : ℕ) × (s.write_all path example_toml ≡ some count)
            × Stored world path force (take count example_toml) outcome
            × (outcome.result ≡ err (write_config path))
            × (outcome.world.stdout ≡ world.stdout))
          ⊎ (Stored world path force example_toml outcome
              × (outcome.result ≡ ok tt)
              × (outcome.world.stdout ≡ world.stdout ++ (codes "wrote " ++ (path ++ b'\n' ∷ [])))))

  -- A text written to the file that was opened.
  Stored-write :
      (world made : World) (path : Bytes) (force : Bool) (content : Bytes)
      (result : Fallible Failure (Unit {0})) (stdout : Bytes)
      → made.files ≡ world.files
      → Free world path force
      → let opened = record made { files = update made.files (s.file_at path) [] } in
        Stored world path force content (record {
          world = record (write (file (s.file_at path)) content opened) { stdout = stdout };
          result = result;
        })
  Stored-write world made path force content result stdout same free =
      let f = s.file_at path in
      record {
        free = free;
        stored =
            update-same (update made.files f []) f _
            ∙ ap (λ o. some ((elim o [ none ↦ [] | some held ↦ held ]) ++ content))
                (update-same made.files f []);
        others = λ other ne.
            update-other (update made.files f []) f other _ ne
            ∙ update-other made.files f other [] ne
            ∙ ap (λ files. files other) same;
      }

  abbrev Opened : World → Bytes → Outcome
  Opened made path = record {
    world = record made { files = update made.files (s.file_at path) [] };
    result = ok tt;
  }

  -- The file is opened, or there is a reason.
  pub config_opened-cases :
      (world made : World) (path : Bytes) (force : Bool)
      → made.files ≡ world.files
      → ((config_opened s made path force ≡ Opened made path) × Free world path force)
        ⊎ ((failure : Failure) × (config_opened s made path force
              ≡ record { world = made; result = err failure })
            × Refusal world path force failure)
  unfolding config_opened
  config_opened-cases world made path true same = elim (Bool-cases (s.can_write path)) [
    | inl may ↦ inl (rw may refl, inl refl)
    | inr may_not ↦ inr (open_config path, rw may_not refl, inr (inl may_not))
  ]
  config_opened-cases world made path false same =
      let here = ap (λ files. files (s.file_at path)) same in
      elim (Option-cases (world.files (s.file_at path))) [
        | inr (content, there) ↦
            inr (create_config path, rw (here ∙ there) refl, inr (inr (refl, λ missing. cc)))
        | inl missing ↦ elim (Bool-cases (s.can_write path)) [
          | inl may ↦ inl (rw (here ∙ missing, may) refl, inr missing)
          | inr may_not ↦
              inr (create_config path, rw (here ∙ missing, may_not) refl, inr (inl may_not))
        ]
      ]

  -- Behind the directories.
  written-Initialised :
      (world made : World) (path : Bytes) (force : Bool)
      → made.files ≡ world.files
      → made.stdout ≡ world.stdout
      → Initialised world path force (
          part_then
            (config_opened s made path force)
            (λ opened. written_config s opened path (s.write_all path example_toml)))
  unfolding part_then
  written-Initialised world made path force same same_stdout =
      elim (config_opened-cases world made path force same) [
        | inr (failure, e, reason) ↦ rw e (
            inl (record {
              failure = failure;
              failed = refl;
              reason = reason;
              same_files = same;
              same_stdout = same_stdout;
            }))
        | inl (e, free) ↦ elim (Option-cases (s.write_all path example_toml)) [
          | inl all ↦
              rw (e, all)
                (inr (
                  inr (
                    Stored-write world made path force example_toml _ _ same free,
                    refl,
                    ap (λ out. out ++ (codes "wrote " ++ (path ++ b'\n' ∷ []))) same_stdout,
                  )))
          | inr (count, part) ↦
              rw (e, part)
                (inr (
                  inl (
                    count,
                    refl,
                    Stored-write world made path force (take count example_toml) _ _ same free,
                    refl,
                    same_stdout,
                  )))
        ]
      ]

  dirs_made-Initialised :
      (world : World) (path parent : Bytes) (force : Bool) (made : (Bytes → Bool) × Bool)
      → s.parent path ≡ some parent
      → s.create_dir_all parent world.dirs ≡ made
      → Initialised world path force (
          part_then (dirs_made s world parent made) (λ made.
            part_then
              (config_opened s made path force)
              (λ opened. written_config s opened path (s.write_all path example_toml))))
  unfolding part_then
  dirs_made-Initialised world path parent force (dirs, true) above e =
      written-Initialised world (record world { dirs = dirs }) path force refl refl
  dirs_made-Initialised world path parent force (dirs, false) above e = inl (record {
    failure = create_directory parent;
    failed = refl;
    reason = inl (parent, above, ap (λ (r : (Bytes → Bool) × Bool). r.1) e, refl);
    same_files = refl;
    same_stdout = refl;
  })

  -- Directories are made, or there is no need.
  parent_made-cases :
      (world : World) (path : Bytes)
      → (parent_made s world path ≡ record { world = world; result = ok tt })
        ⊎ ((parent : Bytes) × (s.parent path ≡ some parent)
            × (parent_made s world path
                ≡ dirs_made s world parent (s.create_dir_all parent world.dirs)))
  unfolding parent_made
  parent_made-cases world path = elim (Option-cases (s.parent path)) [
    | inl top ↦ inl (rw (top, parent_made) refl)
    | inr (parent, above) ↦ elim (Bool-cases (is_empty parent)) [
      | inl empty ↦ inl (rw (above, empty, parent_made) refl)
      | inr named ↦ inr (parent, above, rw (above, named, parent_made) refl)
    ]
  ]

-- `init` ends in one of three ways. It is refused, since the directories cannot be made, the file
-- cannot be opened, or it is there and `--force` was not given: then no file has changed. Or writing
-- fails behind some bytes of the example, and the file holds these. Or it succeeds, and the file
-- holds the example, which is told on standard output. In the last two cases every other file is as
-- before, and if the file was there before, `--force` was given.
pub init_config-Initialised :
    (s : System) (path : Bytes) (force : Bool) (world : World)
    → Initialised s world path force (init_config s path force world)
unfolding init_config
init_config-Initialised s path force world = elim (parent_made-cases s world path) [
  | inl e ↦ rw e (unfold part_then in written-Initialised s world world path force refl refl)
  | inr (parent, above, e) ↦ rw e (dirs_made-Initialised s world path parent force _ above refl)
]
