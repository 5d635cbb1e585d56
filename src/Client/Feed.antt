-- ===== src/Client/Feed.antt =====
-- The activity feed of the web client, apps/web/lib/use-activity.ts, as a machine: its state, and what
-- a change of the filter, a page that arrives and "load more" do to it. A click sees the state that was
-- rendered last.
use pstu_final.Base.{
  Bool, true, false, Option, none, some, String, List, [], ◌∷◌, ◌++◌, ◌≡◌, if◌then◌else◌,
}

-- What the server answers, by the filter K and the cursor C.
pub record FeedPage (I C : Type 0) : Type 0 where
  pub items : List I
  pub next_cursor : Option C

pub record Feed (K I C : Type 0) : Type 0 where
  -- the filter that was rendered last
  pub kind : K
  pub items : List I
  pub next_cursor : Option C
  pub is_loading : Bool
  pub is_loading_more : Bool
  pub error : Option String
  -- the request of the effect is under way
  pub pending_page : Bool
  -- the requests of loadMore that are under way, each with its filter and its cursor
  pub pending_more : List (K × C)

module _ {K I C : Type 0} where
  -- The first effect.
  unfoldable pub mounted : K → Feed K I C
  mounted kind = record {
    kind = kind;
    items = [];
    next_cursor = none;
    is_loading = true;
    is_loading_more = false;
    error = none;
    pending_page = true;
    pending_more = [];
  }

  -- The effect of another filter or of `reload`: it aborts the request of the one before, and leaves
  -- that of loadMore alone.
  unfoldable pub change_params : K → Feed K I C → Feed K I C
  change_params kind f = record f {
    kind = kind;
    is_loading = true;
    error = none;
    pending_page = true;
  }

  unfoldable pub page_arrived : FeedPage I C → Feed K I C → Feed K I C
  page_arrived page f = record f {
    items = page.items;
    next_cursor = page.next_cursor;
    is_loading = false;
    pending_page = false;
  }

  unfoldable pub page_failed : String → Feed K I C → Feed K I C
  page_failed message f = record f {
    error = some message;
    is_loading = false;
    pending_page = false;
  }

  abbrev pub ask_for_more : Option C → Feed K I C → Feed K I C
  ask_for_more none f = f
  ask_for_more (some cursor) f = record f {
    is_loading_more = true;
    pending_more = f.pending_more ++ (f.kind, cursor) ∷ [];
  }

  unfoldable pub load_more : Feed K I C → Feed K I C
  load_more f = if f.is_loading_more then f else ask_for_more f.next_cursor f

  -- A request of loadMore that ends leaves the others under way.
  unfoldable pub more_arrived : FeedPage I C → List (K × C) → Feed K I C → Feed K I C
  more_arrived page others f = record f {
    items = f.items ++ page.items;
    next_cursor = page.next_cursor;
    is_loading_more = false;
    pending_more = others;
  }

  unfoldable pub more_failed : String → List (K × C) → Feed K I C → Feed K I C
  more_failed message others f = record f {
    error = some message;
    is_loading_more = false;
    pending_more = others;
  }

module _ {K I C : Type 0} (server : K → Option C → FeedPage I C) where
  -- One step of the feed.
  pub data FeedStep : Feed K I C → Feed K I C → Type 0 where
    params_changed : (kind : K) (f : Feed K I C) → FeedStep f (change_params kind f)
    page_came :
        (f : Feed K I C) → f.pending_page ≡ true → FeedStep f (page_arrived (server f.kind none) f)
    page_broke :
        (message : String) (f : Feed K I C)
        → f.pending_page ≡ true
        → FeedStep f (page_failed message f)
    more_asked : (f : Feed K I C) → FeedStep f (load_more f)
    more_came :
        (kind : K) (cursor : C) (earlier later : List (K × C)) (f : Feed K I C)
        → f.pending_more ≡ earlier ++ (kind, cursor) ∷ later
        → FeedStep f (more_arrived (server kind (some cursor)) (earlier ++ later) f)
    more_broke :
        (message : String) (kind : K) (cursor : C) (earlier later : List (K × C)) (f : Feed K I C)
        → f.pending_more ≡ earlier ++ (kind, cursor) ∷ later
        → FeedStep f (more_failed message (earlier ++ later) f)
