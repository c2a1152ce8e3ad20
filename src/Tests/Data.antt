-- ===== src/Tests/Data.antt =====
-- A site of two routes: the goal of the second depends on that of the first.
use fomo_demo.Prelude.{String, true, some, List, [], ◌∷◌}
use fomo_demo.Contracts.{AcceptanceContract, Action, Assertion, Locator, LocatorBy, Priority}
use fomo_demo.Graph.{GoalDraft, NavigationRoute}
use fomo_demo.Graph.Model.{GraphDraft}

abbrev pub keep_text : String → String
keep_text s = s

abbrev pub heading : Locator
heading = record { by = LocatorBy.role; value = "heading"; name = some "Welcome" }

abbrev pub shows : String → String → AcceptanceContract
shows id path = record {
  criteria =
      record {
        id = id;
        title = id;
        priority = Priority.must;
        given_text = "given";
        when_text = "when";
        then_text = "then";
      }
      ∷ [];
  tests =
      record {
        id = id;
        acceptance_id = id;
        title = id;
        actions = Action.goto path ∷ [];
        assertions = Assertion.visible heading ∷ [];
      }
      ∷ [];
}

abbrev pub home : GoalDraft
home = record {
  goal_id = "home";
  title = "Home";
  product_outcome = "A home page";
  user_visible = true;
  depends_on = [];
  acceptance = shows "home-1" "/";
}

abbrev pub about : GoalDraft
about = record {
  goal_id = "about";
  title = "About";
  product_outcome = "A page about us";
  user_visible = true;
  depends_on = "home" ∷ [];
  acceptance = shows "about-1" "/about";
}

abbrev pub goals : List GoalDraft
goals = home ∷ about ∷ []

abbrev pub route : String → String → String → NavigationRoute
route path title owner = record {
  path = path;
  title = title;
  owning_goal_id = owner;
  deep_linkable = true;
}

abbrev pub routes : List NavigationRoute
routes = route "/" "Home" "home" ∷ route "/about" "About" "about" ∷ []

abbrev pub site : GraphDraft
site = GraphDraft.current "A site" routes goals
