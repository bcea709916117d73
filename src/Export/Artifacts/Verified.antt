-- ===== src/Export/Artifacts/Verified.antt =====
-- What `verify` publishes: the artifacts that two independent generations agree on.
use mathlib.Core.Option.{some-injective}
use sp1_lean.Base.{
  ◌≡◌, sym, ap, ◌∙◌, subst, Bool, true, false, not, ◌&&◌, inl, inr, some, List, [], Memᴰ, arith,
  Text, nat_eq, list_eq, option_eq, ◌==◌, eq_iff, all-mem, Option-cases,
}
use sp1_lean.Base.Dict.{Dict, lookup, NodupKeys, mem_of_lookup}
use sp1_lean.Base.Results.{ok, >>=-ok, >>=-require, ok-injective, Result-cases, raise-not-ok}
use sp1_lean.Export.Stage.{File, regular, Files, directory, Report, open_directory, stage_inputs}
use sp1_lean.Export.Stage.Staged.{IsStaged, stage_inputs-IsStaged}
use sp1_lean.Export.Artifacts.Digest.{IsDigest, artifact_hashes-IsDigest}
use sp1_lean.Export.Artifacts.{
  stale_source, hashes_differ, nondeterministic, same_directory, output_exists, not_staged,
  artifact_hashes, same_texts, Generation, same_generation, authenticate, read_from, stage_new,
  publish, verify,
}

same_texts-left :
    (a b : Dict Text Text) (n t : Text)
    → same_texts a b ≡ true
    → lookup n a ≡ some t
    → lookup n b ≡ some t
same_texts-left a b n t h l = (eq_iff (lookup n b) (some t)).0 (
    all-mem (λ (c : Text × Text). lookup c.0 b == some c.1) (n, t) a (ground arith)
      (mem_of_lookup a l))

same_texts-right :
    (a b : Dict Text Text) (n t : Text)
    → same_texts a b ≡ true
    → lookup n b ≡ some t
    → lookup n a ≡ some t
same_texts-right a b n t h l = (eq_iff (lookup n a) (some t)).0 (
    all-mem (λ (c : Text × Text). lookup c.0 a == some c.1) (n, t) b (ground arith)
      (mem_of_lookup b l))

generation_parts :
    (g h : Generation)
    → same_generation g h ≡ true
    → (g.executable ≡ h.executable) × (same_texts g.artifacts h.artifacts ≡ true)
generation_parts g h e = (
  (eq_iff g.executable h.executable).0
      (second_of (same_texts g.source h.source) (g.executable == h.executable) _ e).0,
  (second_of (same_texts g.source h.source) (g.executable == h.executable) _ e).1,
)
  where
    second_of : (a b c : Bool) → (a && (b && c)) ≡ true → (b ≡ true) × (c ≡ true)
    second_of a b c k = ground arith

opened_empty : (before : Files) → open_directory (directory []) ≡ ok before → [] ≡ before
unfolding open_directory
opened_empty before o = ok-injective [] before o

module _ (identity : Dict Text Text) (sha256 : Text → Text) (names : List Text) where
  -- A generation that was authenticated.
  record IsAuthentic (files : Files) (g : Generation) : Type 0 where
    pub current : same_texts g.source identity ≡ true
    pub hashes : Dict Text Text
    pub digest : IsDigest sha256 files names hashes
    pub recorded : same_texts g.artifacts hashes ≡ true

  authenticate-IsAuthentic :
      (files : Files) (g : Generation) (hashes : Dict Text Text)
      → authenticate identity sha256 names files g ≡ ok hashes
      → IsAuthentic files g
  unfolding authenticate
  authenticate-IsAuthentic files g hashes e =
      let (is_current, e1) = >>=-require (same_texts g.source identity) stale_source _ hashes e in
      let (found, hashed, e2) = >>=-ok (artifact_hashes sha256 names files) _ hashes e1 in
      let (agrees, _) = >>=-require (same_texts g.artifacts found) hashes_differ _ hashes e2 in
      record {
        current = is_current;
        hashes = found;
        digest = artifact_hashes-IsDigest sha256 files names found hashed;
        recorded = agrees;
      }

  -- What is published of two generations: every artifact of the inventory, with the bytes of the first generation, whose hash is that of the
  -- second generation's file too, and no other file.
  pub record IsPublished (first second out : Files) : Type 0 where
    pub complete :
        (n : Text)
        → Memᴰ n names
        → (t u : Text) × (lookup n first ≡ some (regular t))
          × (lookup n second ≡ some (regular u))
          × (sha256 t ≡ sha256 u)
          × (lookup n out ≡ some (regular t))
    pub nothing_else : (n : Text) (f : File) → lookup n out ≡ some f → Memᴰ n names

  stage_new-IsStaged :
      (files : Files) (hashes : Dict Text Text) (out : Files)
      → NodupKeys hashes
      → stage_new identity sha256 names files hashes ≡ ok out
      → (report : Report) × IsStaged
          (read_from identity sha256 names files)
          sha256
          hashes
          []
          out
          report
  unfolding stage_new
  stage_new-IsStaged files hashes out d e =
      elim (Result-cases
        (stage_inputs (read_from identity sha256 names files) sha256 (directory []) hashes)) [
          | inl (x, q) ↦ absurd (raise-not-ok (not_staged x) out (rw (q, stage_new) at e))
          | inr ((after, report), q) ↦
              let (before, opened, _, staged) =
                stage_inputs-IsStaged (read_from identity sha256 names files) sha256 (directory [])
                  hashes after report d q in
              let same : after ≡ out = ok-injective after out (rw (q, stage_new) at e) in
              (
                report,
                subst
                    (λ x.
                      IsStaged (read_from identity sha256 names files) sha256 hashes [] x report)
                    same
                    (subst
                      (λ x.
                        IsStaged (read_from identity sha256 names files) sha256 hashes x after
                          report)
                      (sym (opened_empty before opened)) staged),
              )
        ]

  published :
      (first : Files) (g : Generation) (second : Files) (h : Generation) (out : Files)
      → NodupKeys g.artifacts
      → IsAuthentic first g
      → IsAuthentic second h
      → same_texts g.artifacts h.artifacts ≡ true
      → stage_new identity sha256 names first g.artifacts ≡ ok out
      → IsPublished first second out
  published first g second h out d a b same e =
      let (report, s) = stage_new-IsStaged first g.artifacts out d e in
      record {
        complete = λ n i.
            let (t, in_first, hash_first) = a.digest.named n i in
            let (u, in_second, hash_second) = b.digest.named n i in
            let left = same_texts-right g.artifacts a.hashes n (sha256 t) a.recorded hash_first in
            let right =
              same_texts-right g.artifacts h.artifacts n (sha256 u) same
                (same_texts-right h.artifacts b.hashes n (sha256 u) b.recorded hash_second) in
            let (v, read, _, in_out) = s.complete n (sha256 t) left in
            (
              t,
              u,
              in_first,
              in_second,
              some-injective _ _ (sym left ∙ right),
              in_out ∙ ap (λ x. some (regular x)) (read_same n t v in_first read),
            );
        nothing_else = λ n f l. elim (Option-cases (lookup n g.artifacts)) [
          | inl q ↦ absurd (cc (s.nothing_else n q, l))
          | inr (x, q) ↦
              a.digest.unnamed n x (same_texts-left g.artifacts a.hashes n x a.recorded q)
        ];
      }
    where
      read_same :
          (n t v : Text)
          → lookup n first ≡ some (regular t)
          → read_from identity sha256 names first n ≡ some v
          → v ≡ t
      read_same n t v l r = sym (some-injective t v (rw (l, read_from) at r))

  -- If `verify` publishes, the two directories are different, both generations stem from the current source and from one
  -- executable, and exactly the artifacts of the inventory are published, on whose bytes the two generations agree up to the hash.
  pub verify-IsPublished :
      (first : Files) (g : Generation) (second : Files) (h : Generation)
      (same_path out_exists : Bool) (out : Files) (r : Generation)
      → NodupKeys g.artifacts
      → verify identity sha256 names first g second h same_path out_exists ≡ ok (out, r)
      → (same_path ≡ false)
        × (same_texts g.source identity ≡ true)
        × (same_texts h.source identity ≡ true)
        × (g.executable ≡ h.executable)
        × (r ≡ g)
        × IsPublished first second out
  unfolding verify publish
  verify-IsPublished first g second h same_path out_exists out r d e =
      let (hs, a, e1) = >>=-ok (authenticate identity sha256 names first g) _ (out, r) e in
      let (hs2, b, e2) = >>=-ok (authenticate identity sha256 names second h) _ (out, r) e1 in
      let (same, e3) = >>=-require (same_generation g h) nondeterministic _ (out, r) e2 in
      let (apart, e4) = >>=-require (not same_path) same_directory _ (out, r) e3 in
      let (_, e5) = >>=-require (not out_exists) output_exists _ (out, r) e4 in
      let (files, staged, e6) =
        >>=-ok (stage_new identity sha256 names first g.artifacts) (λ x. ok (x, g)) (out, r) e5 in
      let made : ◌≡◌ {A = Files × Generation} (files, g) (out, r) =
        ok-injective (files, g) (out, r) e6 in
      let (same_executable, agree) = generation_parts g h same in
      let first_authentic = authenticate-IsAuthentic first g hs a in
      let second_authentic = authenticate-IsAuthentic second h hs2 b in
      (
        not_true same_path apart,
        first_authentic.current,
        second_authentic.current,
        same_executable,
        sym (ap (λ (x : Files × Generation). x.1) made),
        published first g second h out d first_authentic second_authentic agree
            (staged ∙ ap (λ (x : Files × Generation). ok x.0) made),
      )
    where
      not_true : (x : Bool) → not x ≡ true → x ≡ false
      not_true x k = ground arith
