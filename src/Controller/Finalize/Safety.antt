-- ===== src/Controller/Finalize/Safety.antt =====
-- The order of the drop and of the removal of the finalizer (`finalize` of
-- internal/controller/dependent.go).
use serenedb_operator.Prelude.{refl}
use serenedb_operator.Prelude.{
  inr, inl, List, ◌≡◌, ◌≢◌, ◌⊎◌, String, true, false, none, some, arith, ◌∷◌,
}
use serenedb_operator.Api.Meta.{ObjectMeta, dependent_finalizer}
use serenedb_operator.Controller.Kube.{update, Library, Event, Env, History, close}
use serenedb_operator.Controller.Op.{as_result, error_of, Op, done}
use serenedb_operator.Controller.Session.{open_session, superuser_password}
use serenedb_operator.Controller.Trace.{count_of, is_update, Quiet}
use serenedb_operator.Controller.Finalize.{
  Finalized, finalize, cluster_gone, remove_finalizer, drop_on_server,
}

-- What controller-runtime documents of RemoveFinalizer: it removes that finalizer and no other.
pub record RemovesOne (lib : Library) : Type 0 where
  pub removes :
      (fs : List String) (f : String) → lib.contains_finalizer (lib.remove_finalizer fs f) f ≡ false
  pub keeps :
      (fs : List String) (f g : String)
      → g ≢ f
      → lib.contains_finalizer (lib.remove_finalizer fs f) g ≡ lib.contains_finalizer fs g

module _ (env : Env) where
  open_session-Quiet : (ns c : String) → Quiet is_update (open_session env ns c)
  unfolding open_session superuser_password count_of
  open_session-Quiet ns c h = ground arith

  cluster_gone-Quiet : (ns c : String) → Quiet is_update (cluster_gone env ns c)
  unfolding cluster_gone count_of
  cluster_gone-Quiet ns c h = ground arith

  module _ (obj : Finalized) (c : String) (drop : Op (Unit {0})) where
    -- The history behind the look at the cluster, and the one behind the opened session.
    abbrev pub after_look : History → History
    after_look h = (cluster_gone env obj.metadata.namespace c h).1

    abbrev pub after_session : History → History
    after_session h = (open_session env obj.metadata.namespace c (after_look h)).1

    -- The drop came to its end on a session of its own.
    abbrev pub Dropped : History → Type 0
    Dropped h =
        ((open_session env obj.metadata.namespace c (after_look h)).0 ≡ done tt)
        × ((drop (after_session h)).0 ≡ done tt)

    -- The SereneDB was seen to be absent or under deletion.
    abbrev pub Gone : History → Type 0
    Gone h = (cluster_gone env obj.metadata.namespace c h).0 ≡ done true

    -- Where `finalize` updates an object, and its drop itself updates none, the SereneDB is gone or
    -- the drop has come to its end on a session.
    pub finalize_updates :
        Quiet is_update drop
        → (h : History)
        → count_of is_update (finalize env obj c (some drop) h).1 ≢ count_of is_update h
        → Gone h ⊎ Dropped h
    unfolding finalize drop_on_server count_of
    finalize_updates quiet h changed = ground (
      arith,
      cluster_gone-Quiet obj.metadata.namespace c h,
      open_session-Quiet obj.metadata.namespace c (after_look h),
      quiet (after_session h),
    )

    -- The update by which `finalize` ends: of the object, without the finalizer, with every other
    -- finalizer that it had, and with nothing else of its metadata changed.
    abbrev pub IsUpdate : String → Event → Type 0
    IsUpdate other e =
        (m : ObjectMeta) × (e.call ≡ update (obj.rebuild m))
        × (env.lib.contains_finalizer m.finalizers dependent_finalizer ≡ false)
        × (env.lib.contains_finalizer m.finalizers other
            ≡ env.lib.contains_finalizer obj.metadata.finalizers other)
        × (m ≡ record (obj.metadata) { finalizers = m.finalizers })

    removed_event :
        (other : String)
        → RemovesOne env.lib
        → other ≢ dependent_finalizer
        → (h : History) → (e : Event) × IsUpdate other e × ((remove_finalizer env obj h).1 ≡ e ∷ h)
    unfolding remove_finalizer
    removed_event other laws n h =
        let m = record (obj.metadata) {
          finalizers = env.lib.remove_finalizer obj.metadata.finalizers dependent_finalizer;
        } in
        (
          record {
            call = update (obj.rebuild m);
            error = error_of (as_result (env.answer h (update (obj.rebuild m))));
          },
          (
            m,
            refl,
            laws.removes obj.metadata.finalizers dependent_finalizer,
            laws.keeps obj.metadata.finalizers dependent_finalizer other n,
            refl,
          ),
          ground arith,
        )

    -- Where the object has the finalizer, and the SereneDB is gone or the drop comes to its end on a
    -- session, `finalize` makes one more call behind the look at the SereneDB or behind the drop: an
    -- update of the object without the finalizer, with any other finalizer as it was and with the
    -- rest of its metadata. The session is closed behind that update. The functions of
    -- controller-runtime on finalizers are taken to do what they are documented to do.
    pub finalize_removes :
        (h : History) (other : String)
        → RemovesOne env.lib
        → other ≢ dependent_finalizer
        → env.lib.contains_finalizer obj.metadata.finalizers dependent_finalizer ≡ true
        → Gone h ⊎ ((cluster_gone env obj.metadata.namespace c h).0 ≡ done false) × Dropped h
        → (e : Event) × IsUpdate other e
          × ((Gone h × ((finalize env obj c (some drop) h).1 ≡ e ∷ after_look h))
              ⊎ (Dropped h
                  × ((finalize env obj c (some drop) h).1
                      ≡ record { call = close; error = none } ∷ e ∷ (drop (after_session h)).1)))
    unfolding finalize drop_on_server
    finalize_removes h other laws n has (inl gone) =
        let (e, u, q) = removed_event other laws n (after_look h) in
        (e, u, inl (gone, ground (arith, q)))
    finalize_removes h other laws n has (inr (there, dropped)) =
        let (e, u, q) = removed_event other laws n (drop (after_session h)).1 in
        (e, u, inr (dropped, ground (arith, q)))
