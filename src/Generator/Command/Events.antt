-- ===== src/Generator/Command/Events.antt =====
-- What the events of the command say (mock/cmd/cmg/pkg/generate.go): the errors that are logged and
-- returned, and the temporary files.
use clue.Base.{
  ◌≡◌, refl, sym, ap, ap₂, ◌∙◌, String, Option, none, some, List, [], ◌∷◌, ◌++◌, append_assoc,
  Bytes,
}
use clue.Generator.Command.{
  Operation, mkdir_all, create_temp, render, rename, close, remove, Answer, failed, succeeded,
  Event, did, printed, logged, Ending, done, error, panicked,
}

-- The errors that some events log.
abbrev pub logged_errors : List Event → List Bytes
logged_errors [] = []
logged_errors (logged ctx err ∷ es) = err ∷ logged_errors es
logged_errors (did op answer ∷ es) = logged_errors es
logged_errors (printed ctx kvs ∷ es) = logged_errors es

-- The errors that an ending returns.
abbrev pub returned : Ending → List Bytes
returned done = []
returned (error err) = err ∷ []
returned panicked = []

-- The temporary files that are created, closed and removed, in order.
abbrev created_file : Operation → Answer → List String
created_file (create_temp dir pattern) (succeeded file) = file ∷ []
created_file _ _ = []

abbrev closed_file : Operation → List String
closed_file (close file) = file ∷ []
closed_file _ = []

abbrev removed_file : Operation → List String
removed_file (remove file) = file ∷ []
removed_file _ = []

abbrev pub created_files : List Event → List String
created_files [] = []
created_files (did op answer ∷ es) = created_file op answer ++ created_files es
created_files (printed ctx kvs ∷ es) = created_files es
created_files (logged ctx err ∷ es) = created_files es

abbrev pub closed_files : List Event → List String
closed_files [] = []
closed_files (did op answer ∷ es) = closed_file op ++ closed_files es
closed_files (printed ctx kvs ∷ es) = closed_files es
closed_files (logged ctx err ∷ es) = closed_files es

abbrev pub removed_files : List Event → List String
removed_files [] = []
removed_files (did op answer ∷ es) = removed_file op ++ removed_files es
removed_files (printed ctx kvs ∷ es) = removed_files es
removed_files (logged ctx err ∷ es) = removed_files es

-- Only a file that has just been rendered without an error is renamed.
abbrev pub IsRendered : Option String → List Event → Type 0
IsRendered ready [] = Unit
IsRendered ready (did (render file mocks) (succeeded name) ∷ es) = IsRendered (some file) es
IsRendered ready (did (render file mocks) (failed err) ∷ es) = IsRendered none es
IsRendered ready (did (rename file to) answer ∷ es) = (ready ≡ some file) × IsRendered none es
IsRendered ready (did (mkdir_all dir) answer ∷ es) = IsRendered ready es
IsRendered ready (did (create_temp dir pattern) answer ∷ es) = IsRendered ready es
IsRendered ready (did (close file) answer ∷ es) = IsRendered ready es
IsRendered ready (did (remove file) answer ∷ es) = IsRendered ready es
IsRendered ready (printed ctx kvs ∷ es) = IsRendered ready es
IsRendered ready (logged ctx err ∷ es) = IsRendered ready es

pub logged_errors-append :
    (es fs : List Event) → logged_errors (es ++ fs) ≡ logged_errors es ++ logged_errors fs
logged_errors-append [] fs = refl
logged_errors-append (did op answer ∷ es) fs = logged_errors-append es fs
logged_errors-append (printed ctx kvs ∷ es) fs = logged_errors-append es fs
logged_errors-append (logged ctx err ∷ es) fs = ap (λ l. err ∷ l) (logged_errors-append es fs)

pub created_files-append :
    (es fs : List Event) → created_files (es ++ fs) ≡ created_files es ++ created_files fs
created_files-append [] fs = refl
created_files-append (did op answer ∷ es) fs =
    ap (λ l. created_file op answer ++ l) (created_files-append es fs)
    ∙ sym (append_assoc (created_file op answer) (created_files es) (created_files fs))
created_files-append (printed ctx kvs ∷ es) fs = created_files-append es fs
created_files-append (logged ctx err ∷ es) fs = created_files-append es fs

pub closed_files-append :
    (es fs : List Event) → closed_files (es ++ fs) ≡ closed_files es ++ closed_files fs
closed_files-append [] fs = refl
closed_files-append (did op answer ∷ es) fs =
    ap (λ l. closed_file op ++ l) (closed_files-append es fs)
    ∙ sym (append_assoc (closed_file op) (closed_files es) (closed_files fs))
closed_files-append (printed ctx kvs ∷ es) fs = closed_files-append es fs
closed_files-append (logged ctx err ∷ es) fs = closed_files-append es fs

pub removed_files-append :
    (es fs : List Event) → removed_files (es ++ fs) ≡ removed_files es ++ removed_files fs
removed_files-append [] fs = refl
removed_files-append (did op answer ∷ es) fs =
    ap (λ l. removed_file op ++ l) (removed_files-append es fs)
    ∙ sym (append_assoc (removed_file op) (removed_files es) (removed_files fs))
removed_files-append (printed ctx kvs ∷ es) fs = removed_files-append es fs
removed_files-append (logged ctx err ∷ es) fs = removed_files-append es fs

IsRendered-any :
    (ready : Option String) (es : List Event) → IsRendered none es → IsRendered ready es
IsRendered-any ready [] h = tt
IsRendered-any ready (did (render file mocks) (succeeded name) ∷ es) h = h
IsRendered-any ready (did (render file mocks) (failed err) ∷ es) h = h
IsRendered-any ready (did (rename file to) answer ∷ es) (e, h) = cc
IsRendered-any ready (did (mkdir_all dir) answer ∷ es) h = IsRendered-any ready es h
IsRendered-any ready (did (create_temp dir pattern) answer ∷ es) h = IsRendered-any ready es h
IsRendered-any ready (did (close file) answer ∷ es) h = IsRendered-any ready es h
IsRendered-any ready (did (remove file) answer ∷ es) h = IsRendered-any ready es h
IsRendered-any ready (printed ctx kvs ∷ es) h = IsRendered-any ready es h
IsRendered-any ready (logged ctx err ∷ es) h = IsRendered-any ready es h

pub IsRendered-append :
    (ready : Option String) (es fs : List Event)
    → IsRendered ready es
    → IsRendered none fs
    → IsRendered ready (es ++ fs)
IsRendered-append ready [] fs h h' = IsRendered-any ready fs h'
IsRendered-append ready (did (render file mocks) (succeeded name) ∷ es) fs h h' =
    IsRendered-append (some file) es fs h h'
IsRendered-append ready (did (render file mocks) (failed err) ∷ es) fs h h' =
    IsRendered-append none es fs h h'
IsRendered-append ready (did (rename file to) answer ∷ es) fs (e, h) h' =
    (e, IsRendered-append none es fs h h')
IsRendered-append ready (did (mkdir_all dir) answer ∷ es) fs h h' =
    IsRendered-append ready es fs h h'
IsRendered-append ready (did (create_temp dir pattern) answer ∷ es) fs h h' =
    IsRendered-append ready es fs h h'
IsRendered-append ready (did (close file) answer ∷ es) fs h h' = IsRendered-append ready es fs h h'
IsRendered-append ready (did (remove file) answer ∷ es) fs h h' = IsRendered-append ready es fs h h'
IsRendered-append ready (printed ctx kvs ∷ es) fs h h' = IsRendered-append ready es fs h h'
IsRendered-append ready (logged ctx err ∷ es) fs h h' = IsRendered-append ready es fs h h'

-- The events log some errors, the files that are created are closed and removed in their order, and
-- what is renamed has just been rendered without an error.
abbrev pub Fair : List Bytes → List Event → Type 0
Fair errs es =
    (logged_errors es ≡ errs)
    × (closed_files es ≡ created_files es)
    × (removed_files es ≡ created_files es)
    × IsRendered none es

pub Fair-append :
    (errs errs' : List Bytes) (es fs : List Event)
    → Fair errs es
    → Fair errs' fs
    → Fair (errs ++ errs') (es ++ fs)
Fair-append errs errs' es fs (e, c, r, h) (e', c', r', h') = (
  logged_errors-append es fs ∙ ap₂ ◌++◌ e e',
  closed_files-append es fs ∙ ap₂ ◌++◌ c c' ∙ sym (created_files-append es fs),
  removed_files-append es fs ∙ ap₂ ◌++◌ r r' ∙ sym (created_files-append es fs),
  IsRendered-append none es fs h h',
)
