-- ===== src/Types/Constants/Units.antt =====
-- types.go: the constants of `Reliability` and `EngineeringUnits`, by their names.
use Prim.Native.String.{String}
use bacnet_go.Base.{ℕ, List, [], ◌∷◌}

abbrev pub reliability_values : List (String × ℕ)
reliability_values =
    ("ReliabilityNoFaultDetected", 0)
    ∷ ("ReliabilityNoSensor", 1)
    ∷ ("ReliabilityOverRange", 2)
    ∷ ("ReliabilityUnderRange", 3)
    ∷ ("ReliabilityOpenLoop", 4)
    ∷ ("ReliabilityShortedLoop", 5)
    ∷ ("ReliabilityNoOutput", 6)
    ∷ ("ReliabilityUnreliableOther", 7)
    ∷ ("ReliabilityProcessError", 8)
    ∷ ("ReliabilityMultiStateFault", 9)
    ∷ ("ReliabilityConfigurationError", 10)
    ∷ ("ReliabilityCommunicationFailure", 12)
    ∷ ("ReliabilityMemberFault", 13)
    ∷ ("ReliabilityMonitoredObjectFault", 14)
    ∷ ("ReliabilityTripped", 15)
    ∷ ("ReliabilityLampFailure", 16)
    ∷ ("ReliabilityActivationFailure", 17)
    ∷ ("ReliabilityRenewDhcpFailure", 18)
    ∷ ("ReliabilityRenewFdRegistrationFailure", 19)
    ∷ ("ReliabilityRestartAutoNegotiationFailure", 20)
    ∷ ("ReliabilityRestartFailure", 21)
    ∷ ("ReliabilityProprietaryCommandFailure", 22)
    ∷ ("ReliabilityFaultsListed", 23)
    ∷ ("ReliabilityReferencedObjectFault", 24)
    ∷ []

abbrev pub engineering_unit_values : List (String × ℕ)
engineering_unit_values =
    ("UnitsSquareMeters", 0)
    ∷ ("UnitsSquareFeet", 1)
    ∷ ("UnitsMilliamperes", 2)
    ∷ ("UnitsAmperes", 3)
    ∷ ("UnitsOhms", 4)
    ∷ ("UnitsVolts", 5)
    ∷ ("UnitsKilovolts", 6)
    ∷ ("UnitsMegavolts", 7)
    ∷ ("UnitsVoltAmperes", 8)
    ∷ ("UnitsKilovoltAmperes", 9)
    ∷ ("UnitsMegavoltAmperes", 10)
    ∷ ("UnitsVoltAmperesReactive", 11)
    ∷ ("UnitsKilovoltAmperesReactive", 12)
    ∷ ("UnitsMegavoltAmperesReactive", 13)
    ∷ ("UnitsDegreesPhase", 14)
    ∷ ("UnitsPowerFactor", 15)
    ∷ ("UnitsJoules", 16)
    ∷ ("UnitsKilojoules", 17)
    ∷ ("UnitsWattHours", 18)
    ∷ ("UnitsKilowattHours", 19)
    ∷ ("UnitsBtus", 20)
    ∷ ("UnitsTherms", 21)
    ∷ ("UnitsTonHours", 22)
    ∷ ("UnitsJoulesPerKilogramDryAir", 23)
    ∷ ("UnitsBtusPerPoundDryAir", 24)
    ∷ ("UnitsCyclesPerHour", 25)
    ∷ ("UnitsCyclesPerMinute", 26)
    ∷ ("UnitsHertz", 27)
    ∷ ("UnitsGramsOfWaterPerKilogramDryAir", 28)
    ∷ ("UnitsPercentRelativeHumidity", 29)
    ∷ ("UnitsMillimeters", 30)
    ∷ ("UnitsMeters", 31)
    ∷ ("UnitsInches", 32)
    ∷ ("UnitsFeet", 33)
    ∷ ("UnitsWattsPerSquareFoot", 34)
    ∷ ("UnitsWattsPerSquareMeter", 35)
    ∷ ("UnitsLumens", 36)
    ∷ ("UnitsLuxes", 37)
    ∷ ("UnitsFootCandles", 38)
    ∷ ("UnitsKilograms", 39)
    ∷ ("UnitsPounds", 40)
    ∷ ("UnitsWatts", 41)
    ∷ ("UnitsKilowatts", 42)
    ∷ ("UnitsMegawatts", 43)
    ∷ ("UnitsBtusPerHour", 44)
    ∷ ("UnitsHorsepower", 45)
    ∷ ("UnitsTonsRefrigeration", 46)
    ∷ ("UnitsPascals", 47)
    ∷ ("UnitsKilopascals", 48)
    ∷ ("UnitsBars", 49)
    ∷ ("UnitsPoundsForcePerSquareInch", 50)
    ∷ ("UnitsCentimetersOfWater", 51)
    ∷ ("UnitsInchesOfWater", 52)
    ∷ ("UnitsMillimetersOfMercury", 53)
    ∷ ("UnitsCentimetersOfMercury", 54)
    ∷ ("UnitsInchesOfMercury", 55)
    ∷ ("UnitsDegreesCelsius", 62)
    ∷ ("UnitsDegreesKelvin", 63)
    ∷ ("UnitsDegreesFahrenheit", 64)
    ∷ ("UnitsDegreeDaysCelsius", 65)
    ∷ ("UnitsDegreeDaysFahrenheit", 66)
    ∷ ("UnitsYears", 67)
    ∷ ("UnitsMonths", 68)
    ∷ ("UnitsWeeks", 69)
    ∷ ("UnitsDays", 70)
    ∷ ("UnitsHours", 71)
    ∷ ("UnitsMinutes", 72)
    ∷ ("UnitsSeconds", 73)
    ∷ ("UnitsMetersPerSecond", 74)
    ∷ ("UnitsKilometersPerHour", 75)
    ∷ ("UnitsFeetPerSecond", 76)
    ∷ ("UnitsFeetPerMinute", 77)
    ∷ ("UnitsMilesPerHour", 78)
    ∷ ("UnitsCubicFeet", 79)
    ∷ ("UnitsCubicMeters", 80)
    ∷ ("UnitsImperialGallons", 81)
    ∷ ("UnitsLiters", 82)
    ∷ ("UnitsUsGallons", 83)
    ∷ ("UnitsCubicFeetPerMinute", 84)
    ∷ ("UnitsCubicMetersPerSecond", 85)
    ∷ ("UnitsImperialGallonsPerMinute", 86)
    ∷ ("UnitsLitersPerSecond", 87)
    ∷ ("UnitsLitersPerMinute", 88)
    ∷ ("UnitsUsGallonsPerMinute", 89)
    ∷ ("UnitsDegreesAngular", 90)
    ∷ ("UnitsDegreesCelsiusPerHour", 91)
    ∷ ("UnitsDegreesCelsiusPerMinute", 92)
    ∷ ("UnitsDegreesFahrenheitPerHour", 93)
    ∷ ("UnitsDegreesFahrenheitPerMinute", 94)
    ∷ ("UnitsNoUnits", 95)
    ∷ ("UnitsPartsPerMillion", 96)
    ∷ ("UnitsPartsPerBillion", 97)
    ∷ ("UnitsPercent", 98)
    ∷ ("UnitsPercentPerSecond", 99)
    ∷ ("UnitsPerMinute", 100)
    ∷ ("UnitsPerSecond", 101)
    ∷ ("UnitsPsiPerDegreeFahrenheit", 102)
    ∷ ("UnitsRadians", 103)
    ∷ ("UnitsRevolutionsPerMinute", 104)
    ∷ []
