-- ===== src/Generator/Command/Runs.antt =====
-- What the events of generateFile say behind the creation of its temporary file
-- (mock/cmd/cmg/pkg/generate.go).
use clue.Base.{
  ◌≡◌, refl, sym, ap, ◌∙◌, String, Option, none, some, List, [], ◌∷◌, ◌++◌, append-nil,
  append_assoc, Bytes, arith,
}
use clue.Generator.Mocks.{Mocks}
use clue.Generator.Command.{
  Context, Operation, render, rename, close, remove, Answer, failed, succeeded, Event, did, logged,
  Run, Ending, done, error, panicked, log_and_return, operate, cleaned, renamed, rendered, made,
}
use clue.Generator.Command.Events.{
  logged_errors, returned, created_files, closed_files, removed_files, IsRendered,
  IsRendered-append, logged_errors-append, created_files-append, closed_files-append,
  removed_files-append, Fair,
}

-- From a state on, what the events say of how the function ends, and why it ends by a panic.
abbrev pub Traced : {W : Type 0} → (List Event → Ending → Type 0) → Run W → Run W × Ending → Type 0
Traced P st (st', end) = (es : List Event) × (st'.events ≡ st.events ++ es) × P es end

module _ {W : Type 0} where
  pub now :
      (P : List Event → Ending → Type 0) (st : Run W) (end : Ending)
      → P [] end
      → Traced P st (st, end)
  now P st end h = ([], sym (append-nil st.events), h)

  pub behind :
      (P Q : List Event → Ending → Type 0) (e : Event) (st st' : Run W) (out : Run W × Ending)
      → st'.events ≡ st.events ++ e ∷ []
      → Traced P st' out
      → ((es : List Event) (end : Ending) → P es end → Q (e ∷ es) end)
      → Traced Q st out
  behind P Q e st st' (st'', end) at (es, at', h) f =
      (e ∷ es, at' ∙ ap (λ l. l ++ es) at ∙ append_assoc st.events (e ∷ []) es, f es end h)

  in_front :
      (P Q : List Event → Ending → Type 0) (e : Event) (st : Run W) (st' st'' : Run W)
      (end : Ending)
      → st''.events ≡ st'.events ++ e ∷ []
      → Traced P st (st', end)
      → ((es : List Event) → P es end → Q (es ++ e ∷ []) end)
      → Traced Q st (st'', end)
  in_front P Q e st st' st'' end at (es, at', h) f =
      (es ++ e ∷ [], at ∙ ap (λ l. l ++ e ∷ []) at' ∙ append_assoc st.events es (e ∷ []), f es h)

-- What the events of a function say, given the cause of a panic.
module _ (Cause : Type 0) where
  abbrev pub Sound : List Event → Ending → Type 0
  Sound es end = Fair (returned end) es × (end ≡ panicked → Cause)

  -- The same without operations on temporary files but the rename of one that is ready.
  abbrev pub Made : Option String → List Event → Ending → Type 0
  Made ready es end =
      ((logged_errors es ≡ returned end)
        × (closed_files es ≡ [])
        × (removed_files es ≡ [])
        × (created_files es ≡ [])
        × IsRendered ready es)
      × (end ≡ panicked → Cause)

  -- In front of the removal of a file, and behind its creation.
  abbrev Closed : String → List Event → Ending → Type 0
  Closed file es end =
      ((logged_errors es ≡ returned end)
        × (closed_files es ≡ file ∷ [])
        × (removed_files es ≡ [])
        × (created_files es ≡ [])
        × IsRendered none es)
      × (end ≡ panicked → Cause)

  abbrev pub Removed : String → List Event → Ending → Type 0
  Removed file es end =
      ((logged_errors es ≡ returned end)
        × (closed_files es ≡ file ∷ [])
        × (removed_files es ≡ file ∷ [])
        × (created_files es ≡ [])
        × IsRendered none es)
      × (end ≡ panicked → Cause)

  error_cause : (err : Bytes) → error err ≡ panicked → Cause
  error_cause err e = ground (arith, e)

module _ {W : Type 0} (perform : W → Operation → W × Answer) (Cause : Type 0) where
  pub log_and_return-Sound :
      (ctx : Context) (err : Bytes) (st : Run W)
      → Traced (Sound Cause) st (log_and_return ctx err st)
  log_and_return-Sound ctx err st =
      (logged ctx err ∷ [], refl, ((refl, refl, refl, tt), error_cause Cause err))

  done_cause : done ≡ panicked → Cause
  done_cause e = ground (arith, e)

  renamed_lem :
      (ctx : Context) (file : String) (st : Run W) (answer : Answer)
      → Traced (Made Cause none) st (renamed perform ctx file (st, answer))
  renamed_lem ctx file st (failed err) =
      (logged ctx err ∷ [], refl, ((refl, refl, refl, refl, tt), error_cause Cause err))
  renamed_lem ctx file st (succeeded name) =
      now (Made Cause none) st done ((refl, refl, refl, refl, tt), done_cause)

  pub made_lem :
      (ctx : Context) (file mocks_file : String) (mocks : Option Mocks) (st : Run W)
      → (mocks ≡ none → Cause)
      → Traced (Made Cause none) st (made perform ctx file mocks_file mocks st)
  made_lem ctx file mocks_file none st cause =
      now (Made Cause none) st panicked ((refl, refl, refl, refl, tt), λ e. cause refl)
  made_lem ctx file mocks_file (some mocks) st cause =
      on_answer (perform st.world (render file mocks)).0 (perform st.world (render file mocks)).1
    where
      on_answer :
          (w : W) (answer : Answer)
          → Traced (Made Cause none) st (
              rendered perform ctx file mocks_file (
                record { world = w; events = st.events ++ did (render file mocks) answer ∷ [] },
                answer,
              ))
      on_answer w (failed err) =
          let e = did (render file mocks) (failed err) in
          let st' : Run W = record { world = w; events = st.events ++ e ∷ [] } in
          behind (Made Cause none) (Made Cause none) e st st' (log_and_return ctx err st') refl
            (logged ctx err ∷ [], refl, ((refl, refl, refl, refl, tt), error_cause Cause err))
            (λ es end h. h)
      on_answer w (succeeded name) =
          let e = did (render file mocks) (succeeded name) in
          let st' : Run W = record { world = w; events = st.events ++ e ∷ [] } in
          let op = rename file mocks_file in
          behind (Made Cause (some file)) (Made Cause none) e st st'
            (renamed perform ctx file (operate perform op st')) refl
            (behind (Made Cause none) (Made Cause (some file)) (did op (perform w op).1) st'
              (operate perform op st').0 (renamed perform ctx file (operate perform op st')) refl
              (renamed_lem ctx file (operate perform op st').0 (perform w op).1)
              (λ es end ((h, c, r, k, g), cause'). ((h, c, r, k, (refl, g)), cause')))
            (λ es end h. h)

  -- The file is closed and removed however `made` ends.
  pub cleaned_lem :
      (file : String) (st : Run W) (out : Run W × Ending)
      → Traced (Made Cause none) st out
      → Traced (Removed Cause file) st (cleaned perform file out)
  cleaned_lem file st (st', end) h =
      let op = close file in
      let op' = remove file in
      let st'' = (operate perform op st').0 in
      in_front (Closed Cause file) (Removed Cause file) (did op' (perform st''.world op').1) st st''
        (operate perform op' st'').0 end refl
        (in_front (Made Cause none) (Closed Cause file) (did op (perform st'.world op).1) st st'
          st'' end refl h (λ es facts. closed end es (perform st'.world op).1 facts))
        (λ es facts. removed end es (perform st''.world op').1 facts)
    where
      closed :
          (end : Ending) (es : List Event) (answer : Answer)
          → Made Cause none es end
          → Closed Cause file (es ++ did (close file) answer ∷ []) end
      closed end es answer ((h, c, r, k, g), cause) = (
        (
          logged_errors-append es (did (close file) answer ∷ [])
              ∙ append-nil (logged_errors es)
              ∙ h,
          closed_files-append es (did (close file) answer ∷ []) ∙ ap (λ l. l ++ file ∷ []) c,
          removed_files-append es (did (close file) answer ∷ [])
              ∙ append-nil (removed_files es)
              ∙ r,
          created_files-append es (did (close file) answer ∷ [])
              ∙ append-nil (created_files es)
              ∙ k,
          IsRendered-append none es (did (close file) answer ∷ []) g tt,
        ),
        cause,
      )

      removed :
          (end : Ending) (es : List Event) (answer : Answer)
          → Closed Cause file es end
          → Removed Cause file (es ++ did (remove file) answer ∷ []) end
      removed end es answer ((h, c, r, k, g), cause) = (
        (
          logged_errors-append es (did (remove file) answer ∷ [])
              ∙ append-nil (logged_errors es)
              ∙ h,
          closed_files-append es (did (remove file) answer ∷ []) ∙ append-nil (closed_files es) ∙ c,
          removed_files-append es (did (remove file) answer ∷ []) ∙ ap (λ l. l ++ file ∷ []) r,
          created_files-append es (did (remove file) answer ∷ [])
              ∙ append-nil (created_files es)
              ∙ k,
          IsRendered-append none es (did (remove file) answer ∷ []) g tt,
        ),
        cause,
      )
