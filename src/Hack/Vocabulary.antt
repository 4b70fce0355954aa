-- ===== src/Hack/Vocabulary.antt =====
-- internal/hack/wordbank.go: the words of `builtinWordsByLength`, in their order.
use fallout_terminal.Common.{List, Bytes, ◌++◌, utf8, split}

abbrev four_letters : List Bytes
four_letters = split b' ' (
    utf8
      "RUIN PALM IRON GATE BOLT RAMP CORE DUST FUSE GRID LAMP MASK NODE PIPE RING RUST SHIP SILO TANK VENT WIRE ZONE CODE DATA DISK DOOR EXIT FIRE FUEL GEAR LOCK MINE PLUG PUMP ROAD ROOF SEAL TENT WALL ACID ARMY ATOM BEAM CAVE COAL COIL DOSE DUNE DIRT JUNK")

abbrev five_letters : List Bytes
five_letters = split b' ' (
    utf8
      "ALLOY ARMOR ATLAS BASIN BLAST BRICK CABLE CACHE CARGO CLIFF CLOCK CRANE CRATE CREEK DRAIN DRONE FLARE FLOOR FAULT FENCE FORGE FUMES GRATE GUARD HATCH HINGE MOTOR PANEL RIDGE RIFLE ROBOT ROVER SHAFT SIREN SPIKE STEEL STOCK STORM SWORD TOWER TRACE TRACK TRAIL TRUNK VALVE VAULT")

abbrev six_letters : List Bytes
six_letters = split b' ' (
    utf8
      "ANCHOR BASALT BEACON BUNKER CAVERN CIPHER CONVOY COURSE DEBRIS ENGINE FILTER FLIGHT FUNGUS GARDEN GIRDER HARBOR HOLLOW LEDGER MARROW MIRAGE NOZZLE OUTAGE PISTON PLAGUE POISON PYLONS QUARRY RANCID ROCKET RUBBLE RUSTIC SENSOR SLUDGE SLUICE SOCKET SWITCH SYSTEM TANKER TUNNEL TURRET VESSEL WANDER WELDER")

abbrev seven_letters : List Bytes
seven_letters = split b' ' (
    utf8
      "ANDROID ARCHIVE ARSENAL ARTICLE BATTERY BEDROCK BOMBARD BREAKER CAPSULE CHAMBER CIRCUIT COOLANT CORRODE CRUMBLE CRYSTAL DOSSIER EXHAUST FALLOUT FOUNDRY FREIGHT GEARBOX IMPLANT KESTREL LANDING LEAKAGE MACHINE MANGLED MINERAL MONITOR NETWORK NUCLEUS OUTPOST PATHWAY PLATING PROTONS QUARTER RAILWAY REACTOR RELAYED RESIDUE RUPTURE SCANNER SEALANT SHATTER SHIPPED SILICON SKYLINE SPARROW STATION STORAGE THERMAL TORNADO TRIGGER TURBINE VACUUMS WARHEAD")

abbrev eight_letters : List Bytes
eight_letters = split b' ' (
    utf8
      "CONCRETE DISTANCE ELECTRIC CHEMICAL GENERATE HOSPITAL INDUSTRY JUNCTION KEYSTONE LOCATION MOUNTAIN NAVIGATE OVERLOAD PIPELINE QUANTITY RADIATOR SIGNPOST TERMINAL UNIFORMS VOLTAGES YIELDING ZEPPELIN")

abbrev pub vocabulary : List Bytes
vocabulary = four_letters ++ (five_letters ++ (six_letters ++ (seven_letters ++ eight_letters)))
