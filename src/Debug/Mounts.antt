-- ===== src/Debug/Mounts.antt =====
-- MountPprofHandlers and the adapter of Goa's muxer (debug/debug.go, debug/goa.go). A muxer is what has
-- been mounted on it, in order; handlers are of any type `H`.
use clue.Base.{◌==◌, Bool, false, List, [], ◌∷◌, ◌++◌, Bytes, codes, String, if◌then◌else◌}
use clue.Debug.Options.{PprofOptions, default_pprof_options, apply_pprof_options}

-- The handlers that MountPprofHandlers mounts, of the package pprof.
pub data Profile : Type 0 where
  index cmdline profile symbol trace : Profile

-- strings.HasPrefix(s, "/"), strings.HasSuffix(s, "/")
abbrev pub begins_with_slash : Bytes → Bool
begins_with_slash [] = false
begins_with_slash (c ∷ cs) = c == b'/'

abbrev pub ends_with_slash : Bytes → Bool
ends_with_slash [] = false
ends_with_slash (c ∷ []) = c == b'/'
ends_with_slash (c ∷ (d ∷ cs)) = ends_with_slash (d ∷ cs)

abbrev pub from_slash : Bytes → Bytes
from_slash s = if begins_with_slash s then s else b'/' ∷ s

abbrev pub to_slash : Bytes → Bytes
to_slash s = if ends_with_slash s then s else s ++ codes "/"

-- What a debug.Muxer does with one pattern.
abbrev pub Mount : Type 0 → Type 0 → Type 0
Mount M H = M → Bytes → H → M

-- `MountPprofHandlers`
abbrev pub mount_pprof_handlers :
    {M : Type 0} → Mount M Profile → M → List (PprofOptions → PprofOptions) → M
mount_pprof_handlers handle mux opts =
    let prefix = to_slash (from_slash (apply_pprof_options default_pprof_options opts).prefix) in
    let mux1 = handle mux prefix index in
    let mux2 = handle mux1 (prefix ++ codes "cmdline") cmdline in
    let mux3 = handle mux2 (prefix ++ codes "profile") profile in
    let mux4 = handle mux3 (prefix ++ codes "symbol") symbol in
    handle mux4 (prefix ++ codes "trace") trace

-- What is mounted on a goahttp.Muxer: method, pattern and handler.
abbrev pub GoaMuxer : Type 0 → Type 0
GoaMuxer H = List (String × Bytes × H)

-- `httpMethods`
abbrev pub http_methods : List String
http_methods =
    "GET" ∷ "HEAD" ∷ "POST" ∷ "PUT" ∷ "PATCH" ∷ "DELETE" ∷ "CONNECT" ∷ "OPTIONS" ∷ "TRACE" ∷ []

abbrev pub handle_methods : {H : Type 0} → List String → Mount (GoaMuxer H) H
handle_methods [] mux path handler = mux
handle_methods (method ∷ methods) mux path handler =
    handle_methods methods (mux ++ (method, path, handler) ∷ []) path handler

-- `Handle` and `HandleFunc` of `muxAdapter`
abbrev pub adapted_handle : {H : Type 0} → Mount (GoaMuxer H) H
adapted_handle mux path handler = handle_methods http_methods mux path handler
