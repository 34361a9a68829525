-- ===== src/Pipeline/Ephemeral.antt =====
-- internal/pipeline/session.go: `Ephemeral`, which opens a source for each run and closes it on release,
-- and the digest that the pool compares.
pub mod Contract
use data_loader.Prelude.{
  ℕ, suc, Bool, Option, none, some, List, [], ◌∷◌, ◌++◌, if◌then◌else◌, leb, ltb, ◌==◌, Text,
  to_lower, Error, Result, ok, err,
}
use data_loader.Prelude.Dict
use data_loader.Prelude.Dict.{Dict}
use data_loader.Contracts.{SourceConfig}
use data_loader.Pipeline.Ports.{Source, SourceSession}
use data_loader.Sources.Connect.{Handle, Unopened}

-- The releases that were handed out, by lease, and what is outside.
pub record EphemeralState (W S : Type 0) : Type 0 where
  pub releases : Dict (Handle W S)
  pub next : ℕ
  pub outside : W

module _ {W S : Type 0} (build : SourceConfig → Result (Unopened W S)) where
  -- `Obtain`.
  unfoldable pub obtain :
      SourceConfig → EphemeralState W S → Result (ℕ × Source S) × EphemeralState W S
  obtain cfg st = elim (build cfg) [
    | err e ↦ (err e, st)
    | ok unopened ↦
        let (r, w) = unopened.connect st.outside in
        elim r [
          | err e ↦ (err e, record st { outside = unopened.close_failed w })
          | ok h ↦ (
            ok (st.next, h.source w),
            record {
              releases = Dict.insert st.next h st.releases;
              next = suc st.next;
              outside = w;
            },
          )
        ]
  ]

  -- The function that `Obtain` returns beside the source.
  unfoldable pub release : ℕ → Bool → EphemeralState W S → EphemeralState W S
  release lease invalidate st = elim (Dict.lookup lease st.releases) [
    | none ↦ st
    | some h ↦ record st { outside = h.close st.outside }
  ]

  -- The sessions as the runner sees them.
  abbrev pub ephemeral : SourceSession (EphemeralState W S) S
  ephemeral = record { obtain = obtain; release = release }
