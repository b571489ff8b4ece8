-- ===== src/Device/UnxFiles.antt =====
-- The files that an acceptor of the unix domain leaves in the file system.
use thespian.Prelude.{
  ◌≡◌, refl, ap, ◌∙◌, Bool, true, false, List, [], ◌∷◌, ◌++◌, append-nil, append_assoc, Option,
  none, some, if◌then◌else◌,
}
use thespian.Prelude.Int.{ℤ}
use thespian.Cbor.Result.{Bytes}
use thespian.Device.Report.{ErrorCode}
use thespian.Device.Unx.{
  UnxAcceptor, Effect, to_owner, remove_file, restrict_to_owner, start_accept, close_socket,
  release, release_path, close_unx, destroy_unx, Use, leaves, shuts, drops, used, told_unx,
  accepted_unx, accept_unx, Event, accepts, closes, live, live_on,
}

-- The files that are removed.
abbrev pub removed : List Effect → List Bytes
removed [] = []
removed (remove_file p ∷ es) = p ∷ removed es
removed (_ ∷ es) = removed es

-- The path of an acceptor, if it has one.
abbrev pub owned : Bytes → List Bytes
owned [] = []
owned (c ∷ cs) = (c ∷ cs) ∷ []

removed-append : (es es' : List Effect) → removed (es ++ es') ≡ removed es ++ removed es'
removed-append [] es' = refl
removed-append (to_owner m ∷ es) es' = removed-append es es'
removed-append (remove_file p ∷ es) es' = ap (λ l. p ∷ l) (removed-append es es')
removed-append (restrict_to_owner p ∷ es) es' = removed-append es es'
removed-append (start_accept ∷ es) es' = removed-append es es'
removed-append (close_socket ∷ es) es' = removed-append es es'

release_path_lem :
    (a : UnxAcceptor) → (removed (release_path a).1 ≡ owned a.path) × ((release_path a).0.path ≡ [])
unfolding release_path release
release_path_lem a = by_path a.path refl
  where
    by_path :
        (p : Bytes) → a.path ≡ p → (removed (release p a).1 ≡ owned p) × ((release p a).0.path ≡ [])
    by_path [] e = (refl, e)
    by_path (c ∷ cs) e = (refl, refl)

close_unx_lem :
    (a : UnxAcceptor) → (removed (close_unx a).1 ≡ owned a.path) × ((close_unx a).0.path ≡ [])
unfolding close_unx
close_unx_lem a =
    let (gone, empty) = release_path_lem a in
    (removed-append (release_path a).1 (to_owner _ ∷ []) ∙ append-nil _ ∙ gone, empty)

-- The files that an acceptor still has to remove.
abbrev kept : Option UnxAcceptor → List Bytes
kept none = []
kept (some a) = owned a.path

close-kept :
    (a : UnxAcceptor) → removed (close_unx a).1 ++ owned (close_unx a).0.path ≡ owned a.path
close-kept a =
    let (gone, empty) = close_unx_lem a in
    ap (λ p. removed (close_unx a).1 ++ owned p) empty ∙ append-nil _ ∙ gone

used_lem : (u : Use) (a : UnxAcceptor) → removed (used u a).1 ++ kept (used u a).0 ≡ owned a.path
unfolding used destroy_unx
used_lem leaves a = refl
used_lem shuts a = close-kept a
used_lem drops a = append-nil _ ∙ (release_path_lem a).0

told_unx_lem :
    (ok : Bool) (r : Option UnxAcceptor)
    → removed (told_unx ok r).1 ++ kept (told_unx ok r).0 ≡ kept r
unfolding told_unx
told_unx_lem ok none = refl
told_unx_lem true (some a) = refl
told_unx_lem false (some a) = close-kept a

-- An acceptor whose callback has run: its file is still to be removed, or was removed.
accepted_unx_lem :
    (fd : ℤ) (ec : Option ErrorCode) (u : Use) (ok : Bool) (a : UnxAcceptor)
    → removed (accepted_unx fd ec u ok a).1 ++ kept (accepted_unx fd ec u ok a).0 ≡ owned a.path
unfolding accepted_unx
accepted_unx_lem fd (some e) u ok a = used_lem u a
accepted_unx_lem fd none u ok a =
    let r = used u a in
    let t = told_unx ok r.0 in
    ap (λ l. l ++ kept t.0) (removed-append r.1 t.1)
    ∙ append_assoc (removed r.1) (removed t.1) (kept t.0)
    ∙ ap (λ l. removed r.1 ++ l) (told_unx_lem ok r.0)
    ∙ used_lem u a

accept_unx_lem :
    (fd : ℤ) (ec : Option ErrorCode) (u : Use) (ok : Bool) (a : UnxAcceptor)
    → removed (accept_unx fd ec u ok a).1 ++ kept (accept_unx fd ec u ok a).0 ≡ owned a.path
unfolding accept_unx
accept_unx_lem fd ec u ok a = by_open a.is_open
  where
    by_open :
        (b : Bool)
        → removed (if b then accepted_unx fd ec u ok a else (some a, [])).1
            ++ kept (if b then accepted_unx fd ec u ok a else (some a, [])).0
          ≡ owned a.path
    by_open false = refl
    by_open true = accepted_unx_lem fd ec u ok a

live_on-removed :
    (rest : UnxAcceptor → List Effect)
    → ((a : UnxAcceptor) → removed (rest a) ≡ owned a.path)
    → (r : Option UnxAcceptor) → removed (live_on rest r) ≡ kept r
live_on-removed rest h none = refl
live_on-removed rest h (some a) = h a

-- Whatever is accepted and closed after the `listen` of an acceptor up to its destruction, and also where
-- the owner closes or destroys it in its callback, the file that it has bound is removed exactly once, and
-- no other file. It listens only once.
pub live-removed : (vs : List Event) (a : UnxAcceptor) → removed (live vs a) ≡ owned a.path
unfolding live destroy_unx
live-removed [] a = (release_path_lem a).0
live-removed (accepts fd ec u ok ∷ vs) a =
    let r = accept_unx fd ec u ok a in
    removed-append r.1 (live_on (λ a'. live vs a') r.0)
    ∙ ap (λ l. removed r.1 ++ l) (live_on-removed (λ a'. live vs a') (λ a'. live-removed vs a') r.0)
    ∙ accept_unx_lem fd ec u ok a
live-removed (closes ∷ vs) a =
    let r = close_unx a in
    removed-append r.1 (live vs r.0)
    ∙ ap (λ l. removed r.1 ++ l) (live-removed vs r.0)
    ∙ close-kept a
