-- ===== src/Generator/Command/Files.antt =====
-- How generateFile ends, and the loop over files (mock/cmd/cmg/pkg/generate.go).
use clue.Base.{
  ◌≡◌, refl, sym, ap, ◌∙◌, String, Option, none, List, [], ◌∷◌, ◌++◌, append_assoc, Bytes, codes,
  map, ◌⊎◌, inl, arith, true, length, ◌<◌,
}
use clue.Generator.Mocks.{Interface, Mocks}
use clue.Generator.Parse.{LoadedPackage}
use clue.Generator.Command.{
  text, texts_of, Context, Operation, mkdir_all, create_temp, Answer, failed, succeeded, did,
  printed, Run, Ending, done, error, panicked, with_pair, record_event, log_and_return, Paths,
  operate, cleaned, made, created, in_directory, generate_file, generate_files,
}
use clue.Generator.Command.Events.{returned, Fair-append}
use clue.Generator.Command.Runs.{
  Traced, now, behind, Sound, Removed, log_and_return-Sound, made_lem, cleaned_lem,
}

-- A loop goes on behind a step that ends with nil, and else ends as the step does.
module _ {W : Type 0} (Cause : Type 0) where
  followed :
      (st st' : Run W) (end : Ending) (out : Run W × Ending)
      → Traced (Sound Cause) st (st', end)
      → Traced (Sound Cause) st' out
      → Traced
          (Sound Cause)
          st
          (elim end [ done ↦ out | error err ↦ (st', error err) | panicked ↦ (st', panicked) ])
  followed st st' done (st'', end') (es, at, (fair, cause)) (fs, at', (fair', cause')) = (
    es ++ fs,
    at' ∙ ap (λ l. l ++ fs) at ∙ append_assoc st.events es fs,
    (Fair-append [] (returned end') es fs fair fair', cause'),
  )
  followed st st' (error err) out h h' = h
  followed st st' panicked out h h' = h

  pub printed-Sound :
      (ctx kvs : Context) (st : Run W) (out : Run W × Ending)
      → Traced (Sound Cause) (record_event (printed ctx kvs) st) out
      → Traced (Sound Cause) st out
  printed-Sound ctx kvs st out h =
      behind (Sound Cause) (Sound Cause) (printed ctx kvs) st (record_event (printed ctx kvs) st)
        out refl h (λ es end h'. h')

module _ {W : Type 0} (perform : W → Operation → W × Answer) (paths : Paths)
    (make_mocks : LoadedPackage → List Interface → Option Mocks) where
  -- An exported interface has a method that go/types cannot find by the two names.
  abbrev pub NotFound : LoadedPackage → Type 0
  NotFound p =
      (i : String) × (method : String) × (paths.is_exported i ≡ true) × (p.variadic i method ≡ none)

  -- Why the command panics.
  abbrev pub Cause : Type 0
  Cause =
      (p : LoadedPackage) × (((is : List Interface) × (make_mocks p is ≡ none))
        ⊎ ((length p.syntax < length p.go_files) ⊎ NotFound p))

  created_lem :
      (ctx : Context) (p : LoadedPackage) (is : List Interface) (mocks_file dir : String)
      (pattern : Bytes) (st : Run W) (w : W) (answer : Answer)
      → Traced (Sound Cause) st (
          created perform paths make_mocks ctx p is mocks_file (
            record { world = w; events = st.events ++ did (create_temp dir pattern) answer ∷ [] },
            answer,
          ))
  created_lem ctx p is mocks_file dir pattern st w (failed err) =
      let e = did (create_temp dir pattern) (failed err) in
      let st' : Run W = record { world = w; events = st.events ++ e ∷ [] } in
      behind (Sound Cause) (Sound Cause) e st st' (log_and_return ctx err st') refl
        (log_and_return-Sound perform Cause ctx err st') (λ es end h. h)
  created_lem ctx p is mocks_file dir pattern st w (succeeded file) =
      let e = did (create_temp dir pattern) (succeeded file) in
      let st' : Run W = record { world = w; events = st.events ++ e ∷ [] } in
      let inner = made perform ctx file mocks_file (make_mocks p is) st' in
      behind (Removed Cause file) (Sound Cause) e st st' (cleaned perform file inner) refl
        (cleaned_lem perform Cause file st' inner (
          made_lem perform Cause ctx file mocks_file (make_mocks p is) st'
            (λ none_made. (p, inl (is, none_made)))))
        (λ es end ((h, c, r, k, g), cause).
          ((h, c ∙ ap (λ l. file ∷ l) (sym k), r ∙ ap (λ l. file ∷ l) (sym k), g), cause))

  in_directory_lem :
      (ctx : Context) (p : LoadedPackage) (is : List Interface)
      (mocks_dir base_file mocks_file : String) (st : Run W) (w : W) (answer : Answer)
      → Traced (Sound Cause) st (
          in_directory perform paths make_mocks ctx p is mocks_dir base_file mocks_file (
            record { world = w; events = st.events ++ did (mkdir_all mocks_dir) answer ∷ [] },
            answer,
          ))
  in_directory_lem ctx p is mocks_dir base_file mocks_file st w (failed err) =
      let e = did (mkdir_all mocks_dir) (failed err) in
      let st' : Run W = record { world = w; events = st.events ++ e ∷ [] } in
      behind (Sound Cause) (Sound Cause) e st st' (log_and_return ctx err st') refl
        (log_and_return-Sound perform Cause ctx err st') (λ es end h. h)
  in_directory_lem ctx p is mocks_dir base_file mocks_file st w (succeeded name) =
      let e = did (mkdir_all mocks_dir) (succeeded name) in
      let st' : Run W = record { world = w; events = st.events ++ e ∷ [] } in
      let pattern = codes ".*." ++ codes base_file in
      let op = create_temp mocks_dir pattern in
      behind (Sound Cause) (Sound Cause) e st st'
        (created perform paths make_mocks ctx p is mocks_file (operate perform op st')) refl
        (created_lem ctx p is mocks_file mocks_dir pattern st' (perform w op).0 (perform w op).1)
        (λ es end h. h)

  generate_file-Sound :
      (ctx : Context) (p : LoadedPackage) (file : String) (is : List Interface) (st : Run W)
      → Traced (Sound Cause) st (generate_file perform paths make_mocks ctx p file is st)
  unfolding generate_file
  generate_file-Sound ctx p file is st =
      let ctx' = with_pair ctx "file" (text file) in
      let kvs = ("interface names", texts_of (map (λ (i : Interface). i.name) is)) ∷ [] in
      let st' = record_event (printed ctx' kvs) st in
      let (dir, base_file) = paths.split file in
      let mocks_dir = paths.join dir "mocks" in
      let mocks_file = paths.join mocks_dir base_file in
      let ctx'' = with_pair ctx' "mocks file" (text mocks_file) in
      let op = mkdir_all mocks_dir in
      printed-Sound Cause ctx' kvs st
        (in_directory perform paths make_mocks ctx'' p is mocks_dir base_file mocks_file
          (operate perform op st'))
        (in_directory_lem ctx'' p is mocks_dir base_file mocks_file st' (perform st'.world op).0
          (perform st'.world op).1)

  pub generate_files-Sound :
      (ctx : Context) (p : LoadedPackage) (files : List (String × List Interface)) (st : Run W)
      → Traced (Sound Cause) st (generate_files perform paths make_mocks ctx p files st)
  unfolding generate_files
  generate_files-Sound ctx p [] st =
      now (Sound Cause) st done ((refl, refl, refl, tt), λ e. ground (arith, e))
  generate_files-Sound ctx p ((file, is) ∷ files) st =
      let (st', end) = generate_file perform paths make_mocks ctx p file is st in
      followed Cause st st' end (generate_files perform paths make_mocks ctx p files st')
        (generate_file-Sound ctx p file is st) (generate_files-Sound ctx p files st')
