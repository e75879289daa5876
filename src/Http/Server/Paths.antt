-- ===== src/Http/Server/Paths.antt =====
-- src/app/http_server.cpp: the paths of the files that dispatch opens.
use neu_stack.Common.{
  ℕ, zero, suc, ◌+◌, ◌≡◌, ◌≢◌, refl, sym, ◌∙◌, inl, inr, true, false, ◌||◌, Option, none, some,
  List, [], ◌∷◌, ◌++◌, length, drop, ◌==◌, if◌then◌else◌, arith, Bool-cases, Option-cases,
}
use mathlib.Core.Path.{subst}
use neu_stack.Http.Text.{Bytes, codes, bytes_eq, begins_with, contains_word}
use neu_stack.Http.{HttpRequest}
use neu_stack.Http.Parser.{split_on}
use neu_stack.Http.Server.Loops.{List-cases}
use neu_stack.Http.Server.{
  HttpServer, begins_slash, serve_file, serve_relative, is_static, find_route, dispatch,
}

abbrev pub dots : Bytes
dots = codes ".."

-- The names of a path between `/`, gone down one after the other from a directory: how far below it
-- the path ends, and `none` if it ever leaves it. The empty name and `.` stay where they are.
abbrev pub descend : ℕ → List Bytes → Option ℕ
descend depth [] = some depth
descend depth (part ∷ parts) =
    if bytes_eq part dots
    then elim depth [ zero ↦ none | suc up ↦ descend up parts ]
    else descend (if bytes_eq part [] || bytes_eq part (codes ".") then depth else depth + 1) parts

-- No name holds two points.
abbrev AllPlain : List Bytes → Type 0
AllPlain [] = Unit {0}
AllPlain (part ∷ parts) = (contains_word dots part ≡ false) × AllPlain parts

dots-contained : (part : Bytes) → bytes_eq part dots ≡ true → contains_word dots part ≡ true
unfolding contains_word
dots-contained [] h = absurd (ground (arith, h))
dots-contained (a ∷ []) h = absurd (ground (arith, h))
dots-contained (a ∷ (b ∷ [])) h = ground (arith, h)
dots-contained (a ∷ (b ∷ (c ∷ rest))) h = absurd (ground (arith, h))

plain-descends : (depth : ℕ) (parts : List Bytes) → AllPlain parts → descend depth parts ≢ none
plain-descends depth [] h = λ e. ground (arith, e)
plain-descends depth (part ∷ parts) h = elim (Bool-cases (bytes_eq part dots)) [
  | inl e ↦ absurd (ground (arith, dots-contained part e, h.0))
  | inr e ↦ rw e (
      plain-descends (if bytes_eq part [] || bytes_eq part (codes ".") then depth else depth + 1)
        parts h.1)
]

abbrev point : Bytes
point = codes "."

first_part :
    (a part : Bytes) (as' parts : List Bytes)
    → a ∷ as' ≡ part ∷ parts
    → begins_with point part ≡ true
    → begins_with point a ≡ true
first_part a part as' parts e h =
    let same : part ≡ a = cc e in subst (λ p. begins_with point p ≡ true) same h

-- The first name begins as the path does.
head-point :
    (rel part : Bytes) (parts : List Bytes)
    → split_on 47 rel ≡ part ∷ parts
    → begins_with point part ≡ true
    → begins_with point rel ≡ true
head-point [] part parts e h =
    let h' : begins_with point [] ≡ true = first_part [] part [] parts e h in
    absurd (ground (arith, h'))
head-point (x ∷ xs) part parts e h = elim (List-cases (split_on 47 xs)) [
  | inl e' ↦
      let step : split_on 47 (x ∷ xs) ≡ [] = rw (e', split_on) in absurd (ground (arith, step, e))
  | inr (q, qs, e') ↦ elim (Bool-cases (x == 47)) [
    | inl slash ↦
        let step : split_on 47 (x ∷ xs) ≡ [] ∷ (q ∷ qs) = rw (e', split_on, slash) in
        let h' : begins_with point [] ≡ true = first_part [] part (q ∷ qs) parts (sym step ∙ e) h in
        absurd (ground (arith, h'))
    | inr name ↦
        let step : split_on 47 (x ∷ xs) ≡ (x ∷ q) ∷ qs = rw (e', split_on, name) in
        let h' : begins_with point (x ∷ q) ≡ true =
          first_part (x ∷ q) part qs parts (sym step ∙ e) h in
        ground (arith, h')
  ]
]

split_on-plain : (rel : Bytes) → contains_word dots rel ≡ false → AllPlain (split_on 47 rel)
unfolding contains_word
split_on-plain [] h = (refl, tt)
split_on-plain (x ∷ xs) h = elim (List-cases (split_on 47 xs)) [
  | inl e ↦ rw (e, split_on) tt
  | inr (part, parts, e) ↦
      let ih : AllPlain (part ∷ parts) = subst AllPlain e (split_on-plain xs (ground (arith, h))) in
      elim (Bool-cases (x == 47)) [
        | inl slash ↦ rw (e, split_on, slash) (refl, ih)
        | inr name ↦
            rw (e, split_on, name) (ground (arith, h, ih.0, head-point xs part parts e), ih.1)
      ]
]

file-opened :
    (read_file : Bytes → Option Bytes) (s : HttpServer) (file_path : Bytes) (request : HttpRequest)
    → (serve_file read_file s file_path request).opened ≡ some file_path
unfolding serve_file
file-opened read_file s file_path request = ground (arith, Option-cases (read_file file_path))

relative-opened :
    (read_file : Bytes → Option Bytes) (s : HttpServer) (rel : Bytes) (request : HttpRequest)
    (path : Bytes)
    → (serve_relative read_file s rel request).opened ≡ some path
    → (path ≡ s.static_dir ++ (codes "/" ++ rel))
      × (contains_word dots rel ≡ false)
      × (begins_slash rel ≡ false)
unfolding serve_relative
relative-opened read_file s rel request path h =
    let file = s.static_dir ++ (codes "/" ++ rel) in
    elim (Bool-cases (contains_word dots rel)) [
      | inl e ↦ absurd (ground (arith, e, h))
      | inr e ↦ elim (Bool-cases (begins_slash rel)) [
        | inl b ↦ absurd (ground (arith, e, b, h))
        | inr b ↦
            let step : (serve_relative read_file s rel request).opened
                ≡ (serve_file read_file s file request).opened =
              rw (e, serve_relative, b) in
            let same : some file ≡ some path =
              sym (file-opened read_file s file request) ∙ sym step ∙ h in
            (cc same, e, b)
      ]
    ]

-- A file that dispatch opens has a path of the directory of the static files, a slash and a
-- relative path, which does not begin with a slash and whose names, gone down one after the other,
-- never leave the directory.
pub dispatch-below :
    (read_file : Bytes → Option Bytes) (s : HttpServer) (request : HttpRequest) (path : Bytes)
    → (dispatch read_file s request).opened ≡ some path
    → (rel : Bytes) × (path ≡ s.static_dir ++ (codes "/" ++ rel))
      × (begins_slash rel ≡ false)
      × (descend 0 (split_on 47 rel) ≢ none)
unfolding dispatch
dispatch-below read_file s request path h = elim (Option-cases (find_route read_file s request)) [
  | inr (handler, e) ↦ absurd (ground (arith, e, h))
  | inl e ↦ elim (Bool-cases (is_static read_file s request)) [
    | inr off ↦ absurd (ground (arith, e, off, h))
    | inl on ↦
        let rel = drop (length s.static_prefix) request.path in
        let step : (dispatch read_file s request).opened
            ≡ (serve_relative read_file s rel request).opened =
          rw (e, dispatch, on) in
        let law = relative-opened read_file s rel request path (sym step ∙ h) in
        (rel, law.0, law.2, plain-descends 0 (split_on 47 rel) (split_on-plain rel law.1))
  ]
]
