-- ===== src/Agents/Invariant.antt =====
-- The lifecycle invariant of the agents and its preservation by each method.
use mathlib.Core.Option
use ai_business_operating_sy.Base.{
  bind_keeps, find-remove_where, find-remove, Bool, Bool-cases, Option, Option-cases, String, Table,
  ap, arith, create, eq_iff, eq_refl, false, find, find-create, find-modify, find-remove,
  if◌then◌else◌, inl, inr, is_some, modify, none, or_default, refl, remove_where, return, some,
  subst, true, ℕ, ◌==◌, ◌>>=◌, ◌≡◌,
}
use ai_business_operating_sy.Agents.State.{
  active, is_archived, is_active, Snapshot, merge, Agent, AgentVersion, AgentsDb, find_owned,
  find_in_org, find_version,
}
use ai_business_operating_sy.Agents.Service.{
  is_taken, new_agent, create_agent, create_version_internal, update, create_version,
  deploy_version, undeploy, rollback, pause, resume, archive, restore, hard_delete, erase,
  is_truthy,
}

-- The agent that a version belongs to.
abbrev pub owner_of : Table AgentVersion → String → Option String
owner_of versions v = Option.map (λ r. r.agent_id) (find v versions)

-- An active agent has a pinned version, a pinned version is one of the agent's own, and an agent is
-- marked as deleted exactly when it is archived, with nothing pinned.
pub record IsSound (versions : Table AgentVersion) (id : String) (a : Agent) : Type 0 where
  pub live : is_active a.status ≡ true → is_some a.deployed_version_id ≡ true
  pub own : (v : String) → a.deployed_version_id ≡ some v → owner_of versions v ≡ some id
  pub gone : is_archived a.status ≡ is_some a.deleted_at
  pub unpinned : is_archived a.status ≡ true → a.deployed_version_id ≡ none

abbrev pub Inv : AgentsDb → Type 0
Inv db = (id : String) (a : Agent) → find id db.agents ≡ some a → IsSound db.versions id a

pub modify-Inv :
    (db : AgentsDb) (id : String) (f : Agent → Agent)
    → Inv db
    → ((a : Agent) → find id db.agents ≡ some a → IsSound db.versions id (f a))
    → Inv (record db { agents = modify id f db.agents })
modify-Inv db id f inv sound j b h = elim (Bool-cases (id == j)) [
  | inl e ↦ same ((eq_iff id j).0 e) (find id db.agents) refl
  | inr e ↦ inv j b (ground (arith, find-modify j id f db.agents))
]
  where
    same : id ≡ j → (o : Option Agent) → find id db.agents ≡ o → IsSound db.versions j b
    same p none g = absurd (ground (arith, find-modify id id f db.agents, eq_refl id))
    same p (some a) g =
        subst (λ k. IsSound db.versions k b) p
          (subst (IsSound db.versions id)
            (ground (arith, find-modify id id f db.agents, eq_refl id)) (sound a g))

pub insert_version-Inv :
    (db : AgentsDb) (id : String) (v : AgentVersion)
    → Inv db
    → find id db.versions ≡ none
    → Inv (record db { versions = create id v db.versions })
insert_version-Inv db id v inv fresh j a h =
    let s = inv j a h in
    record {
      live = s.live;
      own = λ w e. ground (arith, s.own w e, find-create w id v db.versions, eq_iff id w);
      gone = s.gone;
      unpinned = s.unpinned;
    }

pub owned-eq-some :
    (org id : String) (db : AgentsDb) (a : Agent)
    → find_owned org id db ≡ some a
    → (find id db.agents ≡ some a) × (a.deleted_at ≡ none)
unfolding find_owned
owned-eq-some org id db a h = ground arith

pub pause-Inv : (org id : String) (db : AgentsDb) → Inv db → Inv (pause org id db).1
unfolding pause
pause-Inv org id db inv = elim (Option-cases (find_owned org id db)) [
  | inl e ↦ rw (e, pause) inv
  | inr (a, e) ↦
      rw (e, pause)
        (modify-Inv db id _ inv
          (λ b g. ground (arith, inv id b g, (inv id b g).own, owned-eq-some org id db a e)))
]

-- A method that finds the agent and then updates its row keeps the invariant if the new row is sound.
pub update_owned-Inv :
    (org id : String) (db : AgentsDb) (a : Agent) (f : Agent → Agent)
    → Inv db
    → find_owned org id db ≡ some a
    → (a.deleted_at ≡ none → IsSound db.versions id a → IsSound db.versions id (f a))
    → Inv (record db { agents = modify id f db.agents })
update_owned-Inv org id db a f inv e sound =
    let (g, alive) = owned-eq-some org id db a e in
    modify-Inv db id f inv
      (λ b h. subst (λ c. IsSound db.versions id (f c)) (ground arith) (sound alive (inv id a g)))

pub undeploy-Inv : (org id : String) (db : AgentsDb) → Inv db → Inv (undeploy org id db).1
unfolding undeploy
undeploy-Inv org id db inv = elim (Option-cases (find_owned org id db)) [
  | inl e ↦ rw (e, undeploy) inv
  | inr (a, e) ↦
      rw (e, undeploy) (update_owned-Inv org id db a _ inv e (λ alive s. ground (arith, s.own)))
]

pub resume-Inv : (org id : String) (db : AgentsDb) → Inv db → Inv (resume org id db).1
unfolding resume
resume-Inv org id db inv = elim (Option-cases (find_owned org id db)) [
  | inl e ↦ rw (e, resume) inv
  | inr (a, e) ↦ elim (Option-cases a.deployed_version_id) [
    | inl n ↦ rw (e, resume) (rw n inv)
    | inr (v, n) ↦
        rw (e, resume)
          (rw n (update_owned-Inv org id db a _ inv e (λ alive s. ground (arith, s.own))))
  ]
]

pub archive-Inv :
    (org id : String) (now : ℕ) (db : AgentsDb) → Inv db → Inv (archive org id now db).1
unfolding archive
archive-Inv org id now db inv = elim (Option-cases (find_owned org id db)) [
  | inl e ↦ rw (e, archive) inv
  | inr (a, e) ↦ elim (Bool-cases (is_archived a.status)) [
    | inl done ↦ rw (e, archive) (rw done inv)
    | inr fresh ↦
        rw (e, archive)
          (rw fresh (update_owned-Inv org id db a _ inv e (λ alive s. ground (arith, s.own))))
  ]
]

pub restore-Inv : (org id : String) (db : AgentsDb) → Inv db → Inv (restore org id db).1
unfolding restore
restore-Inv org id db inv = elim (Option-cases (find_in_org org id db)) [
  | inl e ↦ rw (e, restore) inv
  | inr (a, e) ↦
      rw (e, restore) (modify-Inv db id _ inv (λ b g. ground (arith, inv id b g, (inv id b g).own)))
]

pub create_version_internal-Inv :
    (id user notes version_id : String) (db : AgentsDb)
    → Inv db
    → Inv (create_version_internal id user notes version_id db).1
create_version_internal-Inv id user notes version_id db inv =
    elim (Option-cases (find id db.agents)) [
      | inl e ↦ rw (e, create_version_internal) inv
      | inr (a, e) ↦ elim (Option-cases (find version_id db.versions)) [
        | inl n ↦ rw (e, n, create_version_internal) (insert_version-Inv db version_id _ inv n)
        | inr (v, n) ↦ rw (e, n, create_version_internal) inv
      ]
    ]

pub find_version-eq-some :
    (agent id : String) (db : AgentsDb) (v : AgentVersion)
    → find_version agent id db ≡ some v
    → owner_of db.versions id ≡ some agent
unfolding find_version
find_version-eq-some agent id db v h =
    ground (arith, eq_iff v.agent_id agent, Option-cases (find id db.versions))

pub deploy_version-Inv :
    (org id version_id : String) (db : AgentsDb)
    → Inv db
    → Inv (deploy_version org id version_id db).1
unfolding deploy_version
deploy_version-Inv org id version_id db inv = elim (Option-cases (find_owned org id db)) [
  | inl e ↦ rw (e, deploy_version) inv
  | inr (a, e) ↦
      let alive = (owned-eq-some org id db a e).1 in
      elim (Option-cases (find_version id version_id db)) [
        | inl n ↦ rw (e, deploy_version) (rw alive (rw n inv))
        | inr (v, n) ↦ elim (Bool-cases (is_truthy v.config.system_instructions)) [
          | inl good ↦
              let f = λ (b : Agent). record b {
                status = active;
                deployed_version_id = some version_id;
                settings = merge v.config b.settings;
              } in
              rw (e, deploy_version)
                (rw alive (
                  rw n (
                    rw good (
                      update_owned-Inv org id db a f inv e
                        (λ _ s. ground (arith, find_version-eq-some id version_id db v n))))))
          | inr bad ↦ rw (e, deploy_version) (rw alive (rw n (rw bad inv)))
        ]
      ]
]

pub commit-Inv :
    (commit : Bool) (id user notes version_id : String) (db : AgentsDb)
    → Inv db
    → Inv
        ((if commit
            then (create_version_internal id user notes version_id >>= λ _. return tt)
            else return tt)
          db).1
commit-Inv true id user notes version_id db inv =
    bind_keeps Inv (λ _. return tt) (create_version_internal id user notes version_id db)
      (create_version_internal-Inv id user notes version_id db inv) (λ _ s _ p. p)
commit-Inv false id user notes version_id db inv = inv

pub update-Inv :
    (org id : String) (dto : Snapshot) (user : String) (commit : Bool) (notes : Option String)
    (version_id : String) (db : AgentsDb)
    → Inv db
    → Inv (update org id dto user commit notes version_id db).1
unfolding update
update-Inv org id dto user commit notes version_id db inv =
    elim (Option-cases (find_owned org id db)) [
      | inl e ↦ rw (e, update) inv
      | inr (a, e) ↦
          let alive = (owned-eq-some org id db a e).1 in
          let saved =
            update_owned-Inv org id db a (λ b. record b { settings = merge dto b.settings }) inv e
              (λ _ s. ground (arith, s.own)) in
          rw (e, update)
            (rw alive (commit-Inv commit id user (or_default notes "Update") version_id _ saved))
    ]

pub create_version-Inv :
    (org id user : String) (notes : Option String) (version_id : String) (db : AgentsDb)
    → Inv db
    → Inv (create_version org id user notes version_id db).1
unfolding create_version
create_version-Inv org id user notes version_id db inv =
    elim (Option-cases (find_owned org id db)) [
      | inl e ↦ rw (e, create_version) inv
      | inr (a, e) ↦
          rw (e, create_version) (create_version_internal-Inv id user _ version_id db inv)
    ]

pub modify_version-Inv :
    (version_id : String) (c : Snapshot) (db : AgentsDb)
    → Inv db
    → Inv (record db { versions = modify version_id (λ v. record v { config = c }) db.versions })
modify_version-Inv version_id c db inv j a h =
    let s = inv j a h in
    record {
      live = s.live;
      own = λ w e. ground (
        arith,
        s.own w e,
        find-modify w version_id (λ v. record v { config = c }) db.versions,
        Option-cases (find w db.versions),
      );
      gone = s.gone;
      unpinned = s.unpinned;
    }

pub rollback-Inv :
    (org id version_id user notes new_id : String) (db : AgentsDb)
    → Inv db
    → Inv (rollback org id version_id user notes new_id db).1
unfolding rollback
rollback-Inv org id version_id user notes new_id db inv =
    elim (Option-cases (find_owned org id db)) [
      | inl e ↦ rw (e, rollback) inv
      | inr (a, e) ↦ elim (Option-cases (find_version id version_id db)) [
        | inl n ↦ rw (e, rollback) (rw n inv)
        | inr (v, n) ↦
            rw (e, rollback)
              (rw n (
                bind_keeps Inv _ (create_version_internal id user notes new_id db)
                  (create_version_internal-Inv id user notes new_id db inv)
                  (λ _ s _ p.
                    deploy_version-Inv org id new_id _ (modify_version-Inv new_id v.config s p))))
      ]
    ]

pub create_agent-Inv :
    (org user name : String) (dto : Snapshot) (slug id version_id : String) (db : AgentsDb)
    → Inv db
    → Inv (create_agent org user name dto slug id version_id db).1
unfolding create_agent
create_agent-Inv org user name dto slug id version_id db inv =
    elim (Bool-cases (is_taken org slug db)) [
      | inl taken ↦ rw (taken, create_agent) inv
      | inr free ↦ elim (Option-cases (find id db.agents)) [
        | inr (a, e) ↦ rw (free, e, create_agent) inv
        | inl e ↦ elim (Option-cases (find version_id db.versions)) [
          | inl n ↦
              rw (free, e, create_agent) (rw n (insert_version-Inv made_db version_id _ made n))
          | inr (v, n) ↦ rw (free, e, create_agent) (rw n made)
        ]
      ]
    ]
  where
    made_db : AgentsDb
    made_db = record db { agents = create id (new_agent org user name dto slug) db.agents }

    made : Inv made_db
    made j b h = ground (
      arith,
      find-create j id (new_agent org user name dto slug) db.agents,
      inv j b,
      (λ (g : find j db.agents ≡ some b). (inv j b g).own),
    )

owner-remove_where :
    (id j v : String) (t : Table AgentVersion)
    → (j == id) ≡ false
    → owner_of t v ≡ some j
    → owner_of (remove_where (λ r. r.agent_id == id) t) v ≡ some j
owner-remove_where id j v t ne h = go (find v t) refl
  where
    go :
        (o : Option AgentVersion)
        → find v t ≡ o
        → owner_of (remove_where (λ r. r.agent_id == id) t) v ≡ some j
    go none e = absurd (ground arith)
    go (some r) e = ground (
      arith,
      find-remove_where v (λ r. r.agent_id == id) t r e,
      (λ (x : r.agent_id ≡ j). ap (λ i. i == id) x),
    )

pub hard_delete-Inv : (org id : String) (db : AgentsDb) → Inv db → Inv (hard_delete org id db).1
unfolding hard_delete
hard_delete-Inv org id db inv = elim (Option-cases (find_in_org org id db)) [
  | inl e ↦ rw (e, hard_delete) inv
  | inr (a, e) ↦ rw (e, hard_delete) erased
]
  where
    erased : Inv (erase id db)
    erased j b h =
        let ne : (j == id) ≡ false =
          ground (arith, find-remove j id db.agents, eq_iff id j, eq_iff j id) in
        let s = inv j b (ground (arith, find-remove j id db.agents)) in
        record {
          live = s.live;
          own = λ v e. owner-remove_where id j v db.versions ne (s.own v e);
          gone = s.gone;
          unpinned = s.unpinned;
        }
