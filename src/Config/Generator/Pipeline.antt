-- ===== src/Config/Generator/Pipeline.antt =====
-- generator.rs: what a successful answer carries.
use stelliberty_m.Yaml.{Yaml}
use stelliberty_m.Config.Injector.Run.{Run}
