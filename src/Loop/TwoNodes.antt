-- ===== src/Loop/TwoNodes.antt =====
-- A superstep of two nodes, which finish in either order.
use langgraph_study.Prelude.{String, true, [], ◌∷◌}
use langgraph_study.Values.{num}
use langgraph_study.Pregel.Io.{one}
use langgraph_study.Loop.State.{Graph, PregelLoop}
use langgraph_study.Loop.Tick.{tick}
use langgraph_study.Loop.Run.{NodeResult, RunNodes, returned}
use langgraph_study.Loop.Samples.{spinning, started}

abbrev two_nodes : Graph
two_nodes = record spinning {
  nodes =
      ("n", record { triggers = "a" ∷ []; channels = one "a"; has_node = true })
      ∷ ("m", record { triggers = "a" ∷ []; channels = one "a"; has_node = true })
      ∷ [];
  trigger_to_nodes = ("a", "n" ∷ "m" ∷ []) ∷ [];
}

abbrev unstarted : PregelLoop
unstarted = record started { pending_writes = [] }

abbrev begun : PregelLoop
begun = (tick two_nodes unstarted).1

abbrev from_n : String × NodeResult
from_n = ("n", returned (("a", num 2) ∷ []))

abbrev from_m : String × NodeResult
from_m = ("m", returned [])

abbrev n_first : RunNodes
n_first l tasks = from_n ∷ from_m ∷ []

abbrev m_first : RunNodes
m_first l tasks = from_m ∷ from_n ∷ []
