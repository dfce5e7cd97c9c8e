-- ===== src/Main/DebugClient.antt =====
-- debugClient (cmd/main.go): a client that logs each request and its answer. An entry of the log is
-- kept by the request's name and its error; the other fields are those of the object at hand.
use kube_smart_scheduler.Prelude.{
  ◌≡◌, sym, ap, append-nil, append_assoc, Bool, true, false, Option, List, [], ◌∷◌, ◌++◌,
  if◌then◌else◌,
}
use kube_smart_scheduler.Client.{Act, ◌>>=◌, pure}

pub data Verb : Type 0 where
  get_verb list_verb create_verb delete_verb update_verb patch_verb delete_all_of_verb : Verb

pub data Entry (E : Type 0) : Type 0 where
  request : Verb → Entry E
  response : Verb → Option E → Entry E

-- The methods of client.Client that the debug client wraps, and Status().Update, which it has from the
-- client that is embedded in it: each may change the object that it is given. `K` are keys, `O` objects, `L` lists of objects, `P` patches, `C` options and `E` errors.
pub record ObjectClient (W K O L P C E : Type 0) : Type 0 where
  pub get : K → O → List C → Act W (Option E × O)
  pub list : L → List C → Act W (Option E × L)
  pub create : O → List C → Act W (Option E × O)
  pub delete : O → List C → Act W (Option E × O)
  pub update : O → List C → Act W (Option E × O)
  pub patch : O → P → List C → Act W (Option E × O)
  pub delete_all_of : O → List C → Act W (Option E × O)
  pub status_update : O → List C → Act W (Option E × O)

-- What a method adds to the log.
abbrev pub entries_of : {E : Type 0} → Bool → Verb → Option E → List (Entry E)
entries_of debug verb e = if debug then request verb ∷ response verb e ∷ [] else []

module _ {W E : Type 0} where
  -- setupLog.Info
  abbrev pub info : Entry E → Act (W × List (Entry E)) (Unit {0})
  info entry (w, log) = (tt, (w, log ++ entry ∷ []))

  abbrev pub info_if : Bool → Entry E → Act (W × List (Entry E)) (Unit {0})
  info_if debug entry = if debug then info entry else (λ w. (tt, w))

  -- The wrapped client's call, which does not see the log.
  abbrev pub inner : {A : Type 0} → Act W A → Act (W × List (Entry E)) A
  inner call (w, log) = ((call w).0, ((call w).1, log))

  -- One method: the request is logged, the wrapped client called, and its answer logged.
  unfoldable pub logged :
      {A : Type 0} → Bool → Verb → Act W (Option E × A) → Act (W × List (Entry E)) (Option E × A)
  logged debug verb call = do
    requested ← info_if debug (request verb)
    answered ← inner call
    responded ← info_if debug (response verb answered.0)
    pure answered

  -- A method answers and changes the world as the wrapped client's does, and the log grows by the two
  -- entries of the call, or by none.
  abbrev pub IsLogged :
      {A : Type 0}
      → Bool
      → Verb
      → Act W (Option E × A)
      → Act (W × List (Entry E)) (Option E × A)
      → Type 0
  IsLogged debug verb call method =
      (w : W) (log : List (Entry E))
      → method (w, log) ≡ ((call w).0, ((call w).1, log ++ entries_of debug verb (call w).0.0))

  logged-IsLogged :
      {A : Type 0} (debug : Bool) (verb : Verb) (call : Act W (Option E × A))
      → IsLogged debug verb call (logged debug verb call)
  unfolding logged
  logged-IsLogged true verb call w log =
      ap (λ l. ((call w).0, ((call w).1, l)))
        (append_assoc log (request verb ∷ []) (response verb (call w).0.0 ∷ []))
  logged-IsLogged false verb call w log =
      ap (λ l. ((call w).0, ((call w).1, l))) (sym (append-nil log))

  inner-IsLogged :
      {A : Type 0} (verb : Verb) (call : Act W (Option E × A))
      → IsLogged false verb call (inner call)
  inner-IsLogged verb call w log = ap (λ l. ((call w).0, ((call w).1, l))) (sym (append-nil log))

module _ {W K O L P C E : Type 0} where
  unfoldable pub debug_client :
      Bool → ObjectClient W K O L P C E → ObjectClient (W × List (Entry E)) K O L P C E
  unfolding logged
  debug_client debug client = record {
    get = λ key obj opts. logged debug get_verb (client.get key obj opts);
    list = λ objects opts. logged debug list_verb (client.list objects opts);
    create = λ obj opts. logged debug create_verb (client.create obj opts);
    delete = λ obj opts. logged debug delete_verb (client.delete obj opts);
    update = λ obj opts. logged debug update_verb (client.update obj opts);
    patch = λ obj p opts. logged debug patch_verb (client.patch obj p opts);
    delete_all_of = λ obj opts. logged debug delete_all_of_verb (client.delete_all_of obj opts);
    status_update = λ obj opts. inner (client.status_update obj opts);
  }

  -- Every request through the second client is answered, and changes the world, as by the first; it
  -- adds the request and the answer to the log if the client is to log, unless it updates a status, and
  -- else nothing.
  abbrev pub LogsRequests :
      Bool → ObjectClient W K O L P C E → ObjectClient (W × List (Entry E)) K O L P C E → Type 0
  LogsRequests debug client wrapped =
      (key : K) (obj : O) (objects : L) (p : P) (opts : List C)
      → IsLogged debug get_verb (client.get key obj opts) (wrapped.get key obj opts)
        × IsLogged debug list_verb (client.list objects opts) (wrapped.list objects opts)
        × IsLogged debug create_verb (client.create obj opts) (wrapped.create obj opts)
        × IsLogged debug delete_verb (client.delete obj opts) (wrapped.delete obj opts)
        × IsLogged debug update_verb (client.update obj opts) (wrapped.update obj opts)
        × IsLogged debug patch_verb (client.patch obj p opts) (wrapped.patch obj p opts)
        × IsLogged debug delete_all_of_verb (client.delete_all_of obj opts)
            (wrapped.delete_all_of obj opts)
        × IsLogged false update_verb (client.status_update obj opts)
            (wrapped.status_update obj opts)

  -- Every request through the debug client is answered, and changes the world, as by the client that
  -- it wraps; it adds the request and the answer to the log if the client is to log, and else nothing,
  -- and the update of a status is never logged.
  pub debug_client-IsLogged :
      (debug : Bool) (client : ObjectClient W K O L P C E)
      → LogsRequests debug client (debug_client debug client)
  unfolding debug_client
  debug_client-IsLogged debug client key obj objects p opts = (
    logged-IsLogged debug get_verb (client.get key obj opts),
    logged-IsLogged debug list_verb (client.list objects opts),
    logged-IsLogged debug create_verb (client.create obj opts),
    logged-IsLogged debug delete_verb (client.delete obj opts),
    logged-IsLogged debug update_verb (client.update obj opts),
    logged-IsLogged debug patch_verb (client.patch obj p opts),
    logged-IsLogged debug delete_all_of_verb (client.delete_all_of obj opts),
    inner-IsLogged update_verb (client.status_update obj opts),
  )
