-- ===== src/Client/Whole.antt =====
-- The feed shows the front of the list that its filter selects.
use pstu_final.Base.{
  true, false, Option, none, some, List, [], ◌∷◌, ◌++◌, ◌≡◌, ◌⊎◌, inl, inr, refl, ap, sym, subst,
  ◌∙◌, arith, Bool-cases, Option-cases,
}
use mathlib.Core.List.{append_assoc}
use pstu_final.Client.Feed.{
  FeedPage, Feed, FeedStep, params_changed, page_came, page_broke, more_asked, more_came,
  more_broke, mounted, change_params, page_arrived, load_more, more_arrived, more_failed,
}

module _ {K I C : Type 0} (server : K → Option C → FeedPage I C) (rest : K → C → List I) where
  -- What is left behind a cursor.
  abbrev pub left_of : K → Option C → List I
  left_of kind none = []
  left_of kind (some cursor) = rest kind cursor

  abbrev pub whole_of : K → List I
  whole_of kind = (server kind none).items ++ left_of kind (server kind none).next_cursor

  -- Behind a cursor stand the items of its page and what is left behind that.
  abbrev pub InPages : Type 0
  InPages =
      (kind : K) (cursor : C)
      → rest kind cursor
        ≡ (server kind (some cursor)).items ++ left_of kind (server kind (some cursor)).next_cursor

  -- A step that no other request crosses: the filter changes while no loadMore is under way, loadMore
  -- is called while no page is, and the first page does not fail.
  abbrev pub IsCalm : (f g : Feed K I C) → FeedStep server f g → Type 0
  IsCalm _ _ (params_changed kind f) = f.pending_more ≡ []
  IsCalm _ _ (page_came f pending) = Unit
  IsCalm _ _ (page_broke message f pending) = ⊥
  IsCalm _ _ (more_asked f) = f.pending_page ≡ false
  IsCalm _ _ (more_came kind cursor earlier later f pending) = Unit
  IsCalm _ _ (more_broke message kind cursor earlier later f pending) = Unit

  pub data CalmRun (kind : K) : Feed K I C → Type 0 where
    start : CalmRun kind (mounted kind)
    after :
        (f g : Feed K I C)
        → CalmRun kind f
        → (s : FeedStep server f g) → IsCalm f g s
        → CalmRun kind g

  -- No request of loadMore is under way, or exactly one, for the filter and the cursor of the state,
  -- and the state says so.
  abbrev IsOwnMore : Feed K I C → Type 0
  IsOwnMore f =
      (f.pending_more ≡ [])
      ⊎ ((cursor : C) × (f.pending_more ≡ (f.kind, cursor) ∷ [])
          × (f.next_cursor ≡ some cursor)
          × (f.is_loading_more ≡ true))

  abbrev Shows : Feed K I C → Type 0
  Shows f = f.items ++ left_of f.kind f.next_cursor ≡ whole_of f.kind

  abbrev pub IsWhole : Feed K I C → Type 0
  IsWhole f =
      ((f.pending_page ≡ true) × (f.pending_more ≡ []))
      ⊎ ((f.pending_page ≡ false) × Shows f × IsOwnMore f)

  module _ (pages : InPages) where
    came :
        (kind : K) (f : Feed K I C)
        → f.pending_more ≡ []
        → f.kind ≡ kind
        → IsWhole (page_arrived (server f.kind none) f)
    unfolding page_arrived
    came kind f quiet same = inr (refl, refl, inl quiet)

    -- A call of loadMore does nothing, or starts a request where the state says that none is under way.
    asked :
        (f : Feed K I C)
        → (load_more f ≡ f)
          ⊎ ((c : C) × (f.is_loading_more ≡ false)
              × (f.next_cursor ≡ some c)
              × (load_more f ≡ record f {
                is_loading_more = true;
                pending_more = f.pending_more ++ (f.kind, c) ∷ [];
              }))
    unfolding load_more
    asked f = elim (Bool-cases f.is_loading_more) [
      | inl e ↦ inl (rw e refl)
      | inr e ↦ elim (Option-cases f.next_cursor) [
        | inl n ↦ inl (rw (e, n) refl)
        | inr (c, n) ↦ inr (c, e, n, rw (e, n) refl)
      ]
    ]

    asked-IsWhole :
        (f : Feed K I C) → f.pending_page ≡ false → Shows f → IsOwnMore f → IsWhole (load_more f)
    asked-IsWhole f done shows own = elim (asked f) [
      | inl same ↦ rw same (inr (done, shows, own))
      | inr (c, idle, n, e) ↦ elim own [
        | inl quiet ↦
            let one = ap (λ (xs : List (K × C)). xs ++ (f.kind, c) ∷ []) quiet in
            rw e (inr (done, shows, inr (c, one, n, refl)))
        | inr (d, out, here, busy) ↦ let no : true ≡ false = sym busy ∙ idle in ground arith
      ]
    ]

    more-Shows :
        (cursor : C) (f : Feed K I C)
        → f.next_cursor ≡ some cursor
        → Shows f
        → Shows (more_arrived (server f.kind (some cursor)) [] f)
    unfolding more_arrived
    more-Shows cursor f here shows =
        append_assoc f.items (server f.kind (some cursor)).items _
        ∙ ap (λ (t : List I). f.items ++ t) (sym (pages f.kind cursor))
        ∙ ap (λ (c : Option C). f.items ++ left_of f.kind c) (sym here)
        ∙ shows

    -- The only request under way is the one that ends.
    alone :
        (x y : K × C) (earlier later : List (K × C))
        → x ∷ [] ≡ earlier ++ y ∷ later
        → (x ≡ y) × (earlier ++ later ≡ [])
    alone x y [] later h = ground arith
    alone x y (z ∷ []) later h = ground arith
    alone x y (z ∷ w ∷ earlier) later h = ground arith

    none_out :
        {B : Type 0} (y : K × C) (earlier later : List (K × C)) → [] ≡ earlier ++ y ∷ later → B
    none_out y [] later h = ground arith
    none_out y (z ∷ earlier) later h = ground arith

    more-IsWhole :
        (kind : K) (cursor : C) (others : List (K × C)) (f : Feed K I C)
        → f.kind ≡ kind
        → others ≡ []
        → f.next_cursor ≡ some cursor
        → f.pending_page ≡ false
        → Shows f
        → IsWhole (more_arrived (server kind (some cursor)) others f)
    unfolding more_arrived
    more-IsWhole kind cursor others f same rest_out here done shows = inr (
      done,
      subst (λ (k : K). Shows (more_arrived (server k (some cursor)) [] f)) same
          (more-Shows cursor f here shows),
      inl rest_out,
    )

    step-IsWhole :
        (f g : Feed K I C) (s : FeedStep server f g) → IsCalm f g s → IsWhole f → IsWhole g
    unfolding change_params more_failed
    step-IsWhole _ _ (params_changed kind f) calm whole = inl (refl, calm)
    step-IsWhole _ _ (page_came f pending) calm (inl (waits, quiet)) = came f.kind f quiet refl
    step-IsWhole _ _ (page_came f pending) calm (inr (done, shows, own)) = ground arith
    step-IsWhole _ _ (page_broke message f pending) calm whole = absurd calm
    step-IsWhole _ _ (more_asked f) calm (inl (waits, quiet)) = ground arith
    step-IsWhole _ _ (more_asked f) calm (inr (done, shows, own)) = asked-IsWhole f done shows own
    step-IsWhole _ _ (more_came kind cursor earlier later f pending) calm (inl (waits, quiet)) =
        none_out (kind, cursor) earlier later (sym quiet ∙ pending)
    step-IsWhole _ _ (more_came kind cursor earlier later f pending) calm
          (inr (done, shows, inl quiet)) =
        none_out (kind, cursor) earlier later (sym quiet ∙ pending)
    step-IsWhole _ _ (more_came kind cursor earlier later f pending) calm
          (inr (done, shows, inr (c, e, here, busy))) =
        let (same, rest_out) = alone (f.kind, c) (kind, cursor) earlier later (sym e ∙ pending) in
        let there : c ≡ cursor = ap (λ (x : K × C). x.1) same in
        more-IsWhole kind cursor (earlier ++ later) f (ap (λ (x : K × C). x.0) same) rest_out
          (here ∙ ap (λ (x : C). some x) there) done shows
    step-IsWhole _ _ (more_broke message kind cursor earlier later f pending) calm
          (inl (waits, quiet)) =
        none_out (kind, cursor) earlier later (sym quiet ∙ pending)
    step-IsWhole _ _ (more_broke message kind cursor earlier later f pending) calm
          (inr (done, shows, inl quiet)) =
        none_out (kind, cursor) earlier later (sym quiet ∙ pending)
    step-IsWhole _ _ (more_broke message kind cursor earlier later f pending) calm
          (inr (done, shows, inr (c, e, here, busy))) =
        let (same, rest_out) = alone (f.kind, c) (kind, cursor) earlier later (sym e ∙ pending) in
        inr (done, shows, inl rest_out)

    mounted-IsWhole : (kind : K) → IsWhole (mounted kind)
    unfolding mounted
    mounted-IsWhole kind = inl (refl, refl)

    -- In a run in which no first page fails, the filter changes only while no request of loadMore is
    -- under way and loadMore is called only while the first page is there: whenever that page is
    -- there, the items that the feed shows, followed by what its cursor leaves, are the whole list of
    -- its filter, so that nothing is missing, doubled or of another filter, however often loadMore
    -- is called and whether its requests fail or not; and at most one of them is under way.
    pub CalmRun-IsWhole : (kind : K) (f : Feed K I C) → CalmRun kind f → IsWhole f
    CalmRun-IsWhole kind _ start = mounted-IsWhole kind
    CalmRun-IsWhole kind _ (after f g run s calm) =
        step-IsWhole f g s calm (CalmRun-IsWhole kind f run)
